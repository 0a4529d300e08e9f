-- ===== src/Jobs/Specs.antt =====
-- src/background_jobs.c: the job specifications `%n`, `%+`, `%-`, `%text` and `%?text`. A text is the
-- list of its bytes before the terminator; `strtoul` is read at a text that begins with a digit.
use gsh.Prelude.{
  ℕ, ◌+◌, ◌-◌, ◌*◌, ◌^◌, Bool, true, false, ◌&&◌, ◌||◌, not, List, [], ◌∷◌, ltb, leb, ◌==◌,
  if◌then◌else◌, length, get_or, take, drop, bytes_eq, is_prefix, ascii, u64_max,
}
use gsh.Positionals.{c_string}
use gsh.Jobs.{JobspecStatus, ok, missing, ambiguous, invalid, Entry, BackgroundTable}
use gsh.Jobs.Table.{used_entries, overfull, is_some}
use gsh.Jobs.Release.{entry_for_id}

-- `strstr(text, part) != NULL`
unfoldable pub occurs : List ℕ → List ℕ → Bool
occurs part [] = is_prefix part []
occurs part (c ∷ cs) = is_prefix part (c ∷ cs) || occurs part cs

unfoldable pub command_matches : Entry → List ℕ → Bool → Bool
unfolding occurs
command_matches e text substring =
    if length text == 0 || e.command_length == 0
    then false
    else if substring
    then occurs text (c_string e.command)
    else leb (length text) e.command_length && bytes_eq (take (length text) e.command) text

-- The loop of `resolve_textual`: the matches so far, and `*job_id`.
unfoldable pub match_entries : List ℕ → Bool → List Entry → ℕ → ℕ → ℕ × ℕ
unfolding command_matches
match_entries text substring [] matches job_id = (matches, job_id)
match_entries text substring (e ∷ es) matches job_id =
    let hit = e.known && command_matches e text substring in
    match_entries text substring es (if hit then matches + 1 else matches)
      (if hit then e.job_id else job_id)

unfoldable pub status_of : ℕ × ℕ → JobspecStatus × ℕ
status_of (matches, job_id) =
    (if matches == 1 then ok else if matches == 0 then missing else ambiguous, job_id)

unfoldable pub resolve_textual : BackgroundTable → List ℕ → Bool → ℕ → JobspecStatus × ℕ
unfolding match_entries status_of
resolve_textual t text substring job_id =
    if overfull t
    then (invalid, job_id)
    else status_of (match_entries text substring (used_entries t) 0 job_id)

abbrev pub is_digit : ℕ → Bool
is_digit c = leb b'0' c && leb c b'9'

-- `strtoul` in base 10: the number that the digits spell, and the rest.
unfoldable pub read_number : ℕ → List ℕ → ℕ × List ℕ
read_number number [] = (number, [])
read_number number (c ∷ cs) =
    let rest = read_number (number * 10 + (c - b'0')) cs in
    if is_digit c then rest else (number, c ∷ cs)

-- the guard behind `strtoul`; a number beyond `unsigned long` sets `errno`
abbrev pub number_refused : ℕ × List ℕ → Bool
number_refused (number, rest) =
    ltb u64_max number || not (length rest == 0) || number == 0 || ltb (2 ^ 32 - 1) number

unfoldable pub found_id : BackgroundTable → ℕ → JobspecStatus × ℕ
unfolding entry_for_id
found_id t job_id =
    (if not (job_id == 0) && is_some (entry_for_id t job_id) then ok else missing, job_id)

-- The status, and `*job_id`, which was `old`.
unfoldable pub resolve : BackgroundTable → List ℕ → ℕ → JobspecStatus × ℕ
unfolding resolve_textual read_number found_id
resolve t jobspec old =
    let second = get_or jobspec 1 0 in
    if not (get_or jobspec 0 0 == b'%')
    then (invalid, old)
    else if bytes_eq jobspec (ascii "%%") || bytes_eq jobspec (ascii "%+")
    then found_id t t.current_job_id
    else if bytes_eq jobspec (ascii "%-")
    then found_id t t.previous_job_id
    else if second == b'?'
    then resolve_textual t (drop 2 jobspec) true old
    else if is_digit second
    then (let n = read_number 0 (drop 1 jobspec) in
        if number_refused n then (invalid, old) else found_id t n.0)
    else resolve_textual t (drop 1 jobspec) false old
