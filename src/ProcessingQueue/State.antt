-- ===== src/ProcessingQueue/State.antt =====
-- The state, the options and the defaults of listener/src/services/event-processing-queue.ts.
use notify_chain.Prelude.{ℕ, max, String, Bool, false, Option, none, some, List, []}
use notify_chain.Prelude.JsSet.{JsSet}
use notify_chain.RetryPolicy.{RetryPolicyConfig, RetryFailureType, retry_policy_defaults}
use notify_chain.ProcessingQueue.Events.{QueuedEvent, PerPriority}

pub record QueueOptions : Type 0 where
  pub max_concurrency : Option ℕ
  pub max_retries : Option ℕ
  pub base_delay_ms : Option ℕ
  pub priority_weights : Option PerPriority
  pub max_attempts : Option ℕ
  pub retryable_failure_types : Option (JsSet RetryFailureType)

pub record QueueConfig : Type 0 where
  pub max_concurrency : ℕ
  pub max_retries : ℕ
  pub base_delay_ms : ℕ
  pub priority_weights : PerPriority
  pub policy : RetryPolicyConfig

abbrev or_default {ℓ} : {A : Type ℓ} → Option A → A → A
or_default none d = d
or_default (some a) d = a

-- The constructor's defaults. Of the retry policy only the ceiling and the retryable types can be
-- chosen.
unfoldable pub resolve_config : QueueOptions → QueueConfig
resolve_config o = record {
  max_concurrency = max 1 (or_default o.max_concurrency 1);
  max_retries = or_default o.max_retries 3;
  base_delay_ms = or_default o.base_delay_ms 2000;
  priority_weights = or_default o.priority_weights (record { high = 5; medium = 2; low = 1 });
  policy = record retry_policy_defaults {
    max_attempts = o.max_attempts;
    retryable_failure_types =
        or_default o.retryable_failure_types retry_policy_defaults.retryable_failure_types;
  };
}

pub record Metrics : Type 0 where
  pub total_enqueued : ℕ
  pub total_processed : ℕ
  pub total_succeeded : ℕ
  pub total_failed : ℕ
  pub total_skipped_permanent : ℕ
  pub processing_times : List ℕ

pub record Queue : Type 0 where
  pub queue : List QueuedEvent
  pub queued_fingerprints : JsSet String
  pub active_fingerprints : JsSet String
  pub timer : Bool
  pub priority_counters : PerPriority
  pub metrics : Metrics

abbrev pub init : Queue
init = record {
  queue = [];
  queued_fingerprints = [];
  active_fingerprints = [];
  timer = false;
  priority_counters = record { high = 0; medium = 0; low = 0 };
  metrics = record {
    total_enqueued = 0;
    total_processed = 0;
    total_succeeded = 0;
    total_failed = 0;
    total_skipped_permanent = 0;
    processing_times = [];
  };
}
