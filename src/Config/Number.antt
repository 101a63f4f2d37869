-- ===== src/Config/Number.antt =====
-- The value of a parameter as an `int`: `get_parameter_value_int`.
use kuro_net.Prelude.{◌≡◌, refl, true, some, inr, List, ◌∷◌, if◌then◌else◌, All}
use kuro_net.Prelude.Int.{ℤ, fits_int}
use kuro_net.Text.{Bytes, codes}
use kuro_net.Exec.{ok, throw, out_of_range}
use kuro_net.Tokens.{to_string_int}
use kuro_net.Tokens.Stoi.{in_range}
use kuro_net.Tokens.Bounds.{stoi-in_range}
use kuro_net.Config.{Environment, System, text_of, get_parameter_value_str, get_parameter_value_int}
use kuro_net.Config.Parts.{join, IsDotless}
use kuro_net.Config.Lookup.{Leads, get_parameter_value_str_iff}

-- Once the file is seen, opens and parses: where names with dots between them lead to a value whose
-- text is a number, asking for them as an `int` returns the number if it fits a 32-bit `int`, and
-- throws the `std::out_of_range` of `std::stoi` if not. Nothing changes in either case.
pub get_parameter_value_int-to_string_int :
    {env : Environment}
    → (s : System env) → (raw : Bytes) → (root t : env.Value) → (part : Bytes)
    → (parts : List Bytes) → (z : ℤ) → s.conf_file_exist ≡ true
    → env.content s.conf_path s.files ≡ some raw
    → env.parse raw ≡ ok (inr root)
    → All IsDotless (part ∷ parts)
    → Leads env root (part ∷ parts) t
    → text_of env t ≡ ok (to_string_int z)
    → get_parameter_value_int (join part parts) s
      ≡ ((if fits_int z then ok z else throw (out_of_range (codes "stoi"))), s)
unfolding get_parameter_value_int in_range
get_parameter_value_int-to_string_int s raw root t part parts z seen opens parsed dotless leads
      told =
    let read : get_parameter_value_str (join part parts) s ≡ (ok (to_string_int z), s) =
      (get_parameter_value_str_iff s raw root seen opens parsed part parts dotless (to_string_int z)
          s).1
        (refl, (t, leads, told)) in
    rw (read, stoi-in_range z) refl
