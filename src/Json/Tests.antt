-- ===== src/Json/Tests.antt =====
-- src/llm_json.c on concrete texts.
use gsh.Prelude.{◌++◌, [], length, false, drop, some, none, ascii, ◌≡◌, refl, arith}
use gsh.Json.{JsonWriter, write_string}
use gsh.Json.Reader.{get_string, get_object}
use gsh.Json.Strings.{read_value}
use gsh.Json.Replay.{read_value-write_string}
use gsh.Json.Within.{OutputFits, Reads, read_string-Reads, get_string-OutputFits}
use gsh.Json.Strings.{read_string}
use gsh.Json.Bounds.{Leaves, write_string-Leaves}

abbrev writer : JsonWriter
writer = record { written = ascii "{\"k\":"; capacity = 64; failed = false }

read_value-write_string_example :
    read_value 8 (drop 5 (write_string writer (ascii "a\"\n\\b")).0.written ++ ascii "}")
    ≡ some (ascii "a\"\n\\b")
unfolding write_string
read_value-write_string_example =
    read_value-write_string writer (ascii "a\"\n\\b") (ascii "}") 8 refl (omega arith)

write_string-Leaves_example : Leaves writer (write_string writer (ascii "a\"\n\\b"))
write_string-Leaves_example = write_string-Leaves writer (ascii "a\"\n\\b") (omega arith)

found : get_string (ascii "{\"x\": \"k\", \"k\": \"v\"}") (ascii "k") 8 ≡ some (ascii "v")
unfolding get_string
found = refl

-- the value of `x` is the text of the key, and no blank follows its comma: the key behind it is missed
missed : get_string (ascii "{\"x\":\"k\",\"k\":\"v\"}") (ascii "k") 8 ≡ none
unfolding get_string
missed = refl

object :
    get_object (ascii "{\"x\":{\"a\":\"}\"},\"y\":1}") (ascii "x") ≡ some (ascii "{\"a\":\"}\"}")
unfolding get_object
object = refl

get_string-OutputFits_example : OutputFits 2 (get_string (ascii "{\"k\":\"v\"}") (ascii "k") 2)
get_string-OutputFits_example = get_string-OutputFits (ascii "{\"k\":\"v\"}") (ascii "k") 2

read_string-Reads_example :
    Reads 8
      (some ([], ascii "a\\u0062\""))
      (read_string (length (ascii "a\\u0062\"")) 8 (some ([], ascii "a\\u0062\"")))
read_string-Reads_example = read_string-Reads 8 (ascii "a\\u0062\"") (omega arith)
