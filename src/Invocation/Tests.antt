-- ===== src/Invocation/Tests.antt =====
-- src/shell_invocation.c on concrete arguments.
use gsh.Prelude.{ℕ, List, [], ◌∷◌, Option, none, some, ◌⊎◌, inl, inr, Errno, true, ascii, ◌≡◌, refl}
use gsh.Options.{update_letter, update_name}
use gsh.Invocation.{Invocation, invocation_parse}
use gsh.Invocation.Within.{Answers, invocation_parse-Answers}

-- `gsh -eo pipefail -c 'true' name`
abbrev args : List (List ℕ)
args =
    ascii "gsh"
    ∷ (ascii "-eo" ∷ (ascii "pipefail" ∷ (ascii "-c" ∷ (ascii "true" ∷ (ascii "name" ∷ [])))))

invocation_parse-Answers_example : Answers 6 (invocation_parse args true)
invocation_parse-Answers_example = invocation_parse-Answers args true

abbrev source_of : Invocation ⊎ Errno → Option ℕ
source_of (inl i) = some i.source_index
source_of (inr e) = none

accepted : source_of (invocation_parse args true) ≡ some 4
unfolding invocation_parse update_letter update_name
accepted = refl
