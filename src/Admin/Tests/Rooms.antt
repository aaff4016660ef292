-- ===== src/Admin/Tests/Rooms.antt =====
-- Runs of the models of the figures, the check-ins (frontend/src/pages/dashboard.tsx and
-- checkin.tsx) on concrete input.
use icpc_controller.Prelude.{ℕ, true, Option, some, List, [], ◌∷◌, refl}
use icpc_controller.Prelude.Int.{ℤ, pos}
use icpc_controller.Prelude.Text.{Text, codes, read}
use icpc_controller.Admin.Fleet.{Device, Room}
use icpc_controller.Admin.Checkin.{
  Reach, start, further, first_page, open_form, submit_form, opened, submitted, actions,
}
use icpc_controller.Admin.Checkin.Forms.{AllProper, Reach-AllProper}

abbrev device : Device
device = record {
  assigned_id = 7;
  hostname = codes "pc";
  student_name = codes "Ada";
  student_num = codes "42";
  checkin_status = 0;
  connected = true;
}

abbrev rooms : List Room
rooms =
    record {
      id = codes "a";
      name = codes "A";
      devices = device ∷ [];
      total_commands = 2;
      recent_commands =
          record { id = 1; command = codes "ls"; status = codes "done"; created_at = codes "3" }
          ∷ record { id = 2; command = codes "ps"; status = codes "done"; created_at = codes "5" }
          ∷ [];
    }
    ∷ []

abbrev date : Text → ℤ
date text = pos (read 0 text)

abbrev number : Text → Option ℕ
number text = some (read 0 text)

opened-Reach : Reach number (open_form device first_page)
unfolding actions
opened-Reach = further start (opened device refl)

Reach-AllProper_example : AllProper (submit_form 7 (open_form device first_page))
unfolding open_form
Reach-AllProper_example = Reach-AllProper (further opened-Reach (submitted refl))
