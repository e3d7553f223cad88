-- ===== src/Tests/Killer.antt =====
-- The killer at concrete inputs: groups that log the calls, and messages of one byte a field.
use deprecated_yandex_contes.Base.{
  ℕ, Bool, true, false, List, [], ◌∷◌, ◌++◌, Bytes, codes, ◌==◌, if◌then◌else◌, Result, ok,
  Bool-cases, inl, inr, ◌≡◌, ◌≢◌, refl, arith,
}
use deprecated_yandex_contes.Text.Streams.{OStream}
use deprecated_yandex_contes.Killer.{
  KillerStatus, ok_status, protected_status, error_status, KillerCommand, KillerAction,
  freeze_action, unfreeze_action, terminate_action, perform,
}
use deprecated_yandex_contes.Killer.Impl.{
  ControlGroups, KillerImpl, KillerOptions, contains, same_name, new_killer, killer_impl, act_on,
  act_at,
}
use deprecated_yandex_contes.Killer.Impl.Safety.{same_name-eq, perform_all, new_killer-safe}
use deprecated_yandex_contes.Killer.Stream.{IsPod, Pods, ask, run_once, serve}
use deprecated_yandex_contes.Killer.Stream.Remote.{ask-run_once, messages, session, serve-messages}

-- The groups that were acted on.
abbrev pub log : ControlGroups (List Bytes)
log = record { act = λ _ m w. (true, m ∷ w) }

abbrev pub format : Bytes → ℕ → Result Bytes
format pattern id = ok (pattern ++ id ∷ [])

abbrev options : KillerOptions ℕ
options = record { unprotected = b'4' ∷ b'5' ∷ []; pattern = codes "id_" }

abbrev pub own : Bytes
own = codes "id_5"

pub frame :
    (action : KillerAction) (m : Bytes) (w : List Bytes)
    → m ≢ own
    → contains (log.act action m w).1 own ≡ contains w own
frame action m w ne = elim (Bool-cases (same_name m own)) [
  | inl e ↦ absurd (ne (same_name-eq m own e))
  | inr d ↦ rw d
]

abbrev commands : List (KillerCommand ℕ)
commands =
    (record { type = freeze_action; id = b'4' })
    ∷ (record { type = terminate_action; id = b'5' })
    ∷ []

new_killer-safe_example :
    (k₀ : KillerImpl (List Bytes)) × (k : KillerImpl (List Bytes)) × (new_killer log format options
        own []
      ≡ ok k₀)
    × (perform_all (killer_impl log format) commands k₀ ≡ ok k)
    × (contains k.groups own ≡ false)
new_killer-safe_example =
    new_killer-safe log format (λ w. contains w own) own frame options own [] commands
      (λ id. (_, refl)) (inl refl)

abbrev action_code : KillerAction → ℕ
action_code freeze_action = 0
action_code unfreeze_action = 1
action_code terminate_action = 2

abbrev status_code : KillerStatus → ℕ
status_code ok_status = 0
status_code protected_status = 1
status_code error_status = 2

abbrev command_of : Bytes → KillerCommand ℕ
command_of [] = record { type = freeze_action; id = 0 }
command_of (_ ∷ []) = record { type = freeze_action; id = 0 }
command_of (t ∷ id ∷ _) = record {
  type = if t == 0 then freeze_action else if t == 1 then unfreeze_action else terminate_action;
  id = id;
}

abbrev is_command : Bytes → Bool
is_command [] = false
is_command (t ∷ _) = if t == 0 then true else if t == 1 then true else t == 2

abbrev status_from : Bytes → KillerStatus
status_from [] = error_status
status_from (s ∷ _) =
    if s == 0 then ok_status else if s == 1 then protected_status else error_status

abbrev pub pods : Pods ℕ
pods = record {
  command = record {
    size = 2;
    to_bytes = λ (c : KillerCommand ℕ). action_code c.type ∷ c.id ∷ [];
    from_bytes = command_of;
    known = is_command;
  };
  status = record {
    size = 1;
    to_bytes = λ s. status_code s ∷ [];
    from_bytes = status_from;
    known = λ _. true;
  };
}

pub commands-IsPod : IsPod pods.command
commands-IsPod = record {
  sized = λ c. refl;
  reads = λ c. reads c.type c.id;
  knows = λ c. knows c.type c.id;
}
  where
    reads :
        (type : KillerAction) (id : ℕ)
        → command_of (action_code type ∷ id ∷ []) ≡ record { type = type; id = id }
    reads freeze_action id = refl
    reads unfreeze_action id = refl
    reads terminate_action id = refl

    knows : (type : KillerAction) (id : ℕ) → is_command (action_code type ∷ id ∷ []) ≡ true
    knows freeze_action id = refl
    knows unfreeze_action id = refl
    knows terminate_action id = refl

pub statuses-IsPod : IsPod pods.status
statuses-IsPod = record { sized = λ s. refl; reads = reads; knows = λ s. refl }
  where
    reads : (s : KillerStatus) → status_from (status_code s ∷ []) ≡ s
    reads ok_status = refl
    reads protected_status = refl
    reads error_status = refl

abbrev output : OStream
output = record { sent = []; good = true }

abbrev first : KillerCommand ℕ
first = record { type = freeze_action; id = b'4' }

abbrev killer : KillerImpl (List Bytes)
killer = record { unprotected = codes "id_4" ∷ []; pattern = codes "id_"; groups = [] }

frozen :
    perform (killer_impl log format) freeze_action b'4' killer
    ≡ ok (ok_status, record killer { groups = codes "id_4" ∷ [] })
unfolding act_on act_at
frozen = refl

ask-run_once_example :
    (run_once pods (killer_impl log format) (0 ∷ b'4' ∷ 7 ∷ []) killer output
      ≡ ok (
        record killer { groups = codes "id_4" ∷ [] },
        7 ∷ [],
        record { sent = 0 ∷ []; good = true },
      ))
    × (ask pods first (0 ∷ 8 ∷ []) output
        ≡ ok (ok_status, 8 ∷ [], record { sent = 0 ∷ b'4' ∷ []; good = true }))
ask-run_once_example =
    ask-run_once pods commands-IsPod statuses-IsPod (killer_impl log format) first killer output
      output (7 ∷ []) (8 ∷ []) refl refl frozen

serve-messages_example :
    serve pods (killer_impl log format) 3 (messages pods commands) killer output
    ≡ session pods (killer_impl log format) commands killer output
serve-messages_example =
    serve-messages pods commands-IsPod (killer_impl log format) commands 3 killer output
      (omega arith) refl (omega arith)
