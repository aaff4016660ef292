-- ===== src/Admin/Screen.antt =====
-- The addresses of screens and terminals (frontend/src/pages/screen.tsx, frontend/src/components/
-- terminal-dialog.tsx).
pub mod Streams
use icpc_controller.Prelude.{ℕ, Bool, true, false, List, [], ◌∷◌, ◌++◌, if◌then◌else◌, is_empty}
use icpc_controller.Prelude.Text.{Text, codes, show}
use icpc_controller.Prelude.Uri.{encode}

-- `now` is Date.now().
unfoldable pub stream_query : Bool → ℕ → Text
stream_query single now =
    codes "?hd=0" ++ (if single then codes "&single=1&_t=" ++ show now else [])

unfoldable pub stream_url : ℕ → Text → ℕ → Bool → Text
stream_url now room id single =
    if is_empty room
    then codes "/api/devices/" ++ (show id ++ (codes "/screen" ++ stream_query single now))
    else codes "/api/cluster/rooms/"
      ++ (encode room
          ++ (codes "/"
              ++ ((if single
                    then codes "proxy/devices/" ++ (show id ++ codes "/screen")
                    else codes "screen/" ++ show id)
                  ++ stream_query single now)))

-- The effect of `Frame`: the address that is shown, and whether an interval goes on asking for
-- single pictures.
pub record Frame : Type 0 where
  pub src : Text
  pub timer : Bool

unfoldable pub show_frame : ℕ → Text → ℕ → Bool → Frame → Frame
show_frame now room id ios s =
    if ios
    then record s { timer = true }
    else record { src = stream_url now room id false; timer = false }

unfoldable pub on_interval : ℕ → Text → ℕ → Frame → Frame
on_interval now room id s = record s { src = stream_url now room id true }

-- The address of a terminal behind the host, with its columns and rows.
unfoldable pub terminal_path : Text → ℕ → ℕ → ℕ → Text
terminal_path room id cols rows =
    (if is_empty room
      then codes "/ws/terminal/"
      else codes "/ws/cluster/rooms/" ++ (encode room ++ codes "/terminal/"))
    ++ (show id ++ (codes "?cols=" ++ (show cols ++ (codes "&rows=" ++ show rows))))
