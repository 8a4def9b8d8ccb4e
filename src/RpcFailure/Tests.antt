-- ===== src/RpcFailure/Tests.antt =====
-- Errors that listener/src/services/stellar-rpc-manager.ts classifies.
use notify_chain.Prelude.{String, ◌≡◌, refl, true, false, some}
use notify_chain.RpcFailure.{RpcError, pos, negsuc, is_rpc_failure_condition}

program : Unit {0}
unfolding is_rpc_failure_condition
program = tt

abbrev plain : String → RpcError
plain message = record { name = ""; message = message; code = ""; status = 0; rpc_code = pos 0 }

bad_gateway_fails :
    is_rpc_failure_condition (λ s. s) (some (record (plain "x") { status = 502 })) ≡ true
unfolding program
bad_gateway_fails = refl

hang_up_fails : is_rpc_failure_condition (λ s. s) (some (plain "the socket hang up")) ≡ true
unfolding program
hang_up_fails = refl

invalid_params_do_not_fail :
    is_rpc_failure_condition (λ s. s) (some (record (plain "bad") { rpc_code = negsuc 32601 }))
    ≡ false
unfolding program
invalid_params_do_not_fail = refl

last_server_code_fails :
    is_rpc_failure_condition (λ s. s) (some (record (plain "x") { rpc_code = negsuc 32098 })) ≡ true
unfolding program
last_server_code_fails = refl
