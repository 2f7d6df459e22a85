-- ===== src/Tests/Texts.antt =====
-- Runs of the checks and the formatting of texts at concrete inputs.
use hybrid_quantum_cryptogra.Prelude.{◌-◌, ◌/◌, ◌≤◌, ◌≡◌, ◌↔◌, ◌⊎◌, refl, true, some}
use hybrid_quantum_cryptogra.Js.{Text, lit, to_lower_case}
use hybrid_quantum_cryptogra.Dates.{hour, at, ago, format_relative_time, age_of}
use hybrid_quantum_cryptogra.Validators.{File, valid, validate_certificate_file}
use hybrid_quantum_cryptogra.Validators.Extension.{IsExtension, validate_certificate_file_iff}

two_hours_ago : format_relative_time (some (at 0)) 7300000 ≡ ago 2 hour true
unfolding format_relative_time age_of
two_hours_ago = refl

four_weeks : 28 ≡ (2419200000 - 0) / 86400000
four_weeks = refl

abbrev upload : File
upload = record { name = lit "root.CRT"; size = 4096 }

validate_certificate_file_iff_example : (validate_certificate_file (some upload) ≡ valid) ↔ (
    ((extension : Text) × IsExtension extension upload.name
      × ((to_lower_case extension ≡ lit "pem") ⊎ (to_lower_case extension ≡ lit "crt")))
    × (upload.size ≤ 5242880))
validate_certificate_file_iff_example = validate_certificate_file_iff upload
