-- ===== src/Admin/Sizes.antt =====
-- The label of a size (`formatBytes` of frontend/src/lib/utils.ts). JavaScript's logarithm and
-- `toFixed` are parameters.
use icpc_controller.Prelude.{
  ℕ, zero, suc, ◌*◌, Option, none, some, List, [], ◌∷◌, ◌++◌, leb, if◌then◌else◌, get_elem?,
}
use icpc_controller.Prelude.Int.{ℤ, pos, negsuc}
use icpc_controller.Prelude.Text.{Text, codes}

unfoldable pub units : List Text
units = codes "B" ∷ codes "KB" ∷ codes "MB" ∷ codes "GB" ∷ codes "TB" ∷ []

-- units[i], which is undefined out of range
unfoldable pub unit_at : ℕ → Text
unit_at n = elim (get_elem? units n) as (λ x. Text) [ none ↦ codes "undefined" | some u ↦ u ]

-- Math.min(units.length - 1, i)
abbrev pub min_unit : ℕ → ℕ
min_unit n = if leb n 4 then n else 4

-- i === 0 ? 0 : 1
abbrev pub digits_for : ℕ → ℕ
digits_for zero = 0
digits_for (suc n) = 1

-- 1024 ** i
abbrev pub kilo_power : ℕ → ℕ
kilo_power zero = 1
kilo_power (suc k) = 1024 * kilo_power k

-- `fixed` with the digits and two numbers is `toFixed` of their quotient.
abbrev pub size_text : (ℕ → ℕ → ℕ → Text) → ℕ → ℕ → Text
size_text fixed bytes i = fixed (digits_for i) bytes (kilo_power i) ++ 32 ∷ unit_at i

-- `floor_log` is Math.floor(Math.log(bytes) / Math.log(1024)), which is not below 0 from 1 byte on.
unfoldable pub format_bytes : (ℕ → ℕ) → (ℕ → ℕ → ℕ → Text) → Option ℤ → Text
format_bytes floor_log fixed none = codes "—"
format_bytes floor_log fixed (some (negsuc n)) = codes "—"
format_bytes floor_log fixed (some (pos zero)) = codes "0 B"
format_bytes floor_log fixed (some (pos (suc n))) =
    size_text fixed (suc n) (min_unit (floor_log (suc n)))
