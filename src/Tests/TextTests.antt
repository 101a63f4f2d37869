-- ===== src/Tests/TextTests.antt =====
-- Instances of the theorems on the log, the fields of a request and the registry.
use kuro_net.Prelude.{
  arith, inl, inr, ℕ, ◌≡◌, refl, true, false, some, List, [], ◌∷◌, ◌++◌, nat_eq, list_eq, list_beq,
}
use kuro_net.Prelude.Map.{lookup}
use kuro_net.Text.{Bytes, codes, find, rfind, elem}
use kuro_net.Exec.{ok}
use kuro_net.World.{desktop_handler}
use kuro_net.Logger.{Logger, info, warning, error, Call, sets, logs, stops, resumes, run, initial}
use kuro_net.Logger.Order.{transcript, IsFlushed, lines_of, transcript-run}
use kuro_net.Dispatcher.{fill_up_field, agent_type_key}
use kuro_net.Dispatcher.Fields.{Padded, solid_end, fill_up_field_line}
use kuro_net.Registry.{eponymous_protocol, agent_selecter}
use kuro_net.Registry.Agents.{full_registry}

abbrev times : ℕ → Bytes
times n = codes "12:00"

abbrev log_calls : List Call
log_calls =
    sets warning
    ∷ logs info (codes "hidden")
    ∷ stops
    ∷ logs error (codes "late")
    ∷ resumes
    ∷ logs error (codes "now")
    ∷ []

transcript-run_example :
    (transcript (run times log_calls initial)
      ≡ transcript initial ++ lines_of times log_calls info false 0)
    × IsFlushed (run times log_calls initial)
transcript-run_example = transcript-run times log_calls initial (λ e. refl)

abbrev stopped : Logger
stopped = record initial { stop_flag = true }

abbrev head_of_request : Bytes
head_of_request = codes "auto\n"

key_first :
    find
      (head_of_request ++ (agent_type_key ++ (codes "mobile_app \r" ++ b'\n' ∷ [])))
      agent_type_key
    ≡ some 5
unfolding find
key_first = refl

key_last :
    rfind (head_of_request ++ (agent_type_key ++ (codes "mobile_app" ++ b'\n' ∷ []))) agent_type_key
    ≡ some 5
unfolding rfind
key_last = refl

mobile-Padded : Padded (codes "mobile_app") (codes " \r")
mobile-Padded =
    solid_end (codes "mobile_ap") 112 (codes " \r") refl (ground arith)
      (inl refl, (inr (inl refl), tt))

fill_up_field_line_example :
    fill_up_field
      (head_of_request ++ (agent_type_key ++ ((codes "mobile_app" ++ codes " \r") ++ b'\n' ∷ [])))
      agent_type_key
    ≡ codes "mobile_app"
unfolding elem
fill_up_field_line_example =
    fill_up_field_line head_of_request agent_type_key (codes "mobile_app") (codes " \r") []
      key_first refl mobile-Padded

desktop_selected :
    eponymous_protocol full_registry (agent_selecter full_registry (codes "desktop_app"))
    ≡ ok desktop_handler
unfolding eponymous_protocol agent_selecter lookup list_beq
desktop_selected = refl
