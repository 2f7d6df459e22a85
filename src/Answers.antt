-- ===== src/Answers.antt =====
-- What a request to the server comes to, as the pages read it, and the export of a table as a file of
-- comma-separated values, which several pages write alike.
pub mod Reading
pub mod Waiting
use mathlib.Core.Option
use hybrid_quantum_cryptogra.Prelude.{Option, none, some, List, [], ◌∷◌, ◌++◌, map, String}
use hybrid_quantum_cryptogra.Js.{Text, lit, join}
use hybrid_quantum_cryptogra.Roles.{truthy}
use hybrid_quantum_cryptogra.History.{row_text}

-- `message` is that of the server's answer, if it sent one.
pub data Answer {ℓ} (A : Type ℓ) : Type ℓ where
  answered : A → Answer A
  failed : (message : Option Text) → Answer A

-- `err?.response?.data?.message || fallback`
unfoldable pub message_or : Option Text → String → Text
message_or message fallback = Option.get_or (truthy message) (lit fallback)

-- A line of headers, then a line of quoted cells for each row.
unfoldable pub csv_of : (headers : List Text) → List (List Text) → Text
csv_of headers rows = join b'\n' (join b',' headers ∷ map row_text rows)
