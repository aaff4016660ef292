-- ===== src/Admin/Tests/Forms.antt =====
-- Runs of the models of the distribution, the settings, the labels and the answers to
-- requests (frontend/src/pages/distribute.tsx, settings.tsx, lib/utils.ts, api.ts)
-- on concrete input.
use icpc_controller.Prelude.{
  ◌⊎◌, ◌++◌, is_empty, ◌*◌, true, false, Option, none, some, [], ◌∷◌, ◌≡◌, refl, arith, length, All,
  ◌==◌, if◌then◌else◌,
}
use icpc_controller.Prelude.Int.{ℤ, pos, ◌-ℤ◌}
use icpc_controller.Prelude.Text.{Text, codes, show, read}
use icpc_controller.Prelude.Sets.{text_eq}
use icpc_controller.Admin.Distribution.{
  Task, Distribution, first_state, on_task, load_task, watch, begun, moved, answered,
}
use icpc_controller.Admin.Distribution.{Reach as DistributionReach}
use icpc_controller.Admin.Distribution.Polling.{IsPolling, Reach-IsPolling}
use icpc_controller.Admin.Labels.{
  status_label, label_in, status_labels, status_tone, Tone, time_ago, ago,
}
use icpc_controller.Admin.Settings.{token_of, to_hex, pad_two}
use icpc_controller.Admin.Settings.Tokens.{read_bytes, is_hex, read_bytes-token_of}
use icpc_controller.Admin.Api.{
  leaves, Json, Response, answer, data_in, end_of, message, syntax_error, api_error,
}
use icpc_controller.Admin.Login.{Login, on_end, submit}
use icpc_controller.Admin.Login.Ends.{on_end-answer}

abbrev running_task : Task
running_task = record {
  status = codes "running";
  suggested_ip = codes "10.0.0.1";
  has_files = true;
}

abbrev in_room : Distribution
in_room = on_task [] (some running_task) (first_state (codes "a") false)

in_room-Reach : DistributionReach in_room
unfolding first_state load_task
in_room-Reach = moved (begun (codes "a") false) (answered [] (some running_task) (omega arith))

Reach-IsPolling_example : IsPolling in_room
Reach-IsPolling_example = Reach-IsPolling in_room-Reach

in_room-task : (in_room.task ≡ some running_task) × (in_room.loads ≡ 0)
unfolding on_task watch first_state load_task text_eq
in_room-task = (refl, refl)

abbrev date : Text → Option ℤ
date text = some (pos (read 0 text))

time_ago_test : time_ago date (pos 7300000) (codes "100000") ≡ codes "2 小时前"
unfolding time_ago ago show ◌-ℤ◌ read
time_ago_test = refl

status_label_test : status_label (codes "queued") ≡ codes "等待中转"
unfolding status_label label_in status_labels text_eq
status_label_test = refl

status_tone_test : status_tone (codes "stopped") ≡ Tone.bad
unfolding status_tone text_eq
status_tone_test = refl

read_bytes-token_of_example :
    (read_bytes (token_of (10 ∷ 255 ∷ [])) ≡ 10 ∷ 255 ∷ [])
    × (length (token_of (10 ∷ 255 ∷ [])) ≡ 2 * 2)
    × All (λ c. is_hex c ≡ true) (token_of (10 ∷ 255 ∷ []))
read_bytes-token_of_example = read_bytes-token_of (10 ∷ 255 ∷ []) (omega arith, (omega arith, tt))

token_of_test : token_of (10 ∷ 255 ∷ []) ≡ codes "0aff"
unfolding token_of to_hex pad_two
token_of_test = refl

-- A reader of texts that begin with a quote.
abbrev quoted : Text → Option Text
quoted [] = none
quoted (c ∷ cs) = if c == 34 then some cs else none

abbrev json : Json
json = record { Value = Text; parse = quoted; error = λ value. value }

abbrev refused : Response
refused = record {
  status = 409;
  ok = false;
  status_text = codes "Conflict";
  text = 34 ∷ codes "in use";
}

-- A page of an error that is not JSON.
unread_test : answer json (record refused { text = codes "<html>" }) ≡ syntax_error
unfolding answer data_in end_of
unread_test = refl

answer_test : answer json refused ≡ api_error 409 (codes "in use")
unfolding answer data_in end_of message
answer_test = refl

abbrev attempt : Login
attempt =
    submit
      (record { password = codes "pw"; error = []; busy = false; open_requests = 0; left = false })

not_left : attempt.left ≡ false
unfolding submit
not_left = refl

on_end-answer_example :
    (leaves (codes "/login" ++ codes ".html") refused ≡ false)
    × ((((on_end json (codes "bad") (answer json refused) attempt).left ≡ true)
          × (refused.ok ≡ true))
        ⊎ (((on_end json (codes "bad") (answer json refused) attempt).left ≡ false)
            × (is_empty (on_end json (codes "bad") (answer json refused) attempt).error ≡ false)))
on_end-answer_example =
    on_end-answer json (codes "bad") (codes ".html") refused attempt refl not_left
