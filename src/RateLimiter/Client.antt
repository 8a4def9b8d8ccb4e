-- ===== src/RateLimiter/Client.antt =====
-- How listener/src/api/rate-limiter.ts identifies the client of a request. The operations on texts
-- are the JavaScript engine's; a header that is missing or no string is absent.
use package.text.Mathlib.Text.{◌==◌ as str_eq, starts_with}
use notify_chain.Prelude.{String, Bool, not, ◌&&◌, Option, none, some, if◌then◌else◌}

pub record TextOps : Type 0 where
  pub trim : String → String
  pub to_lower_case : String → String
  -- `s.slice(7)`
  pub slice_from_7 : String → String
  -- `s.split(',')[0]`
  pub before_comma : String → String

pub record HttpRequest : Type 0 where
  pub x_api_key : Option String
  pub authorization : Option String
  pub x_forwarded_for : Option String
  pub remote_address : Option String

pub data ClientType : Type 0 where
  api_key ip : ClientType

is_truthy : String → Bool
is_truthy s = not (str_eq s "")

module _ (ops : TextOps) where
  -- `req.socket.remoteAddress || '127.0.0.1'`
  remote_ip : Option String → String × ClientType
  unfolding is_truthy
  remote_ip none = ("127.0.0.1", ip)
  remote_ip (some a) = (if is_truthy a then a else "127.0.0.1", ip)

  from_forwarded : Option String → Option String → String × ClientType
  unfolding remote_ip is_truthy
  from_forwarded none remote = remote_ip remote
  from_forwarded (some h) remote =
      let client = ops.trim (ops.before_comma h) in
      if is_truthy (ops.trim h) && is_truthy client then (client, ip) else remote_ip remote

  from_bearer : Option String → HttpRequest → String × ClientType
  unfolding from_forwarded is_truthy
  from_bearer none req = from_forwarded req.x_forwarded_for req.remote_address
  from_bearer (some h) req =
      let token = ops.trim (ops.slice_from_7 h) in
      if starts_with (ops.to_lower_case h) "bearer " && is_truthy token
      then (token, api_key)
      else from_forwarded req.x_forwarded_for req.remote_address

  from_api_key : Option String → HttpRequest → String × ClientType
  unfolding from_bearer is_truthy
  from_api_key none req = from_bearer req.authorization req
  from_api_key (some h) req =
      if is_truthy (ops.trim h) then (ops.trim h, api_key) else from_bearer req.authorization req

  -- `identifyClient`
  unfoldable pub identify_client : HttpRequest → String × ClientType
  unfolding from_api_key
  identify_client req = from_api_key req.x_api_key req
