-- ===== src/Jobs/Marked.antt =====
-- src/background_jobs.c: an entry counts its members that have not ended.
use gsh.Prelude.{
  ℕ, zero, suc, ◌+◌, ◌≤◌, ◌<◌, false, Bool-cases, List, [], ◌∷◌, ◌++◌, map, ◌==◌, if◌then◌else◌,
  length, get_or, set, take, drop, replicate, length-set, ◌≡◌, refl, sym, ap, ◌∙◌, inl, inr, arith,
}
use gsh.Jobs.{Entry, member_cap}
use gsh.Jobs.Table.{is_done_state}
use gsh.Jobs.Update.{mark_member, all_members_stopped, stop_member, continue_member}

-- How many members have not ended.
abbrev pub unfinished : List ℕ → ℕ
unfinished [] = 0
unfinished (s ∷ states) = (if s == 2 then 0 else 1) + unfinished states

pub record EntryIsValid (e : Entry) : Type 0 where
  pub room : length e.member_states ≡ member_cap
  pub within : e.member_count ≤ member_cap
  pub counts : e.remaining ≡ unfinished (take e.member_count e.member_states)
  pub done_iff : is_done_state e.state ≡ (e.remaining == 0)
  pub done_same : e.is_done ≡ is_done_state e.state

-- A member that has not ended.
pub record IsRunning (e : Entry) (member : ℕ) : Type 0 where
  pub inside : member < e.member_count
  pub not_ended : (get_or e.member_states member 0 == 2) ≡ false

-- Marking a member that has not ended changes the count by that member only.
unfinished-set :
    (states : List ℕ) (n member mark : ℕ)
    → member < n
    → member < length states
    → (get_or states member 0 == 2) ≡ false
    → unfinished (take n (set states member mark)) + (if mark == 2 then 1 else 0)
      ≡ unfinished (take n states)
unfinished-set [] n member mark h k live = absurd (omega arith)
unfinished-set (s ∷ states) zero member mark h k live = absurd (omega arith)
unfinished-set (s ∷ states) (suc n) zero mark h k live = ground arith
unfinished-set (s ∷ states) (suc n) (suc member) mark h k live =
    omega (arith, unfinished-set states n member mark (omega arith) (omega arith) live)

pub unfinished-map :
    (f : ℕ → ℕ) (n : ℕ) (states : List ℕ)
    → ((s : ℕ) → (f s == 2) ≡ (s == 2))
    → unfinished (take n (map f (take n states) ++ drop n states)) ≡ unfinished (take n states)
unfinished-map f zero states same = refl
unfinished-map f (suc n) [] same = refl
unfinished-map f (suc n) (s ∷ states) same = rw (same s, unfinished-map f n states same) refl

pub unfinished-replicate : (n : ℕ) (rest : List ℕ) → unfinished (take n (replicate n 0 ++ rest)) ≡ n
unfinished-replicate zero rest = refl
unfinished-replicate (suc n) rest = omega (arith, unfinished-replicate n rest)

pub length-map_first :
    (f : ℕ → ℕ) (n : ℕ) (states : List ℕ)
    → length (map f (take n states) ++ drop n states) ≡ length states
length-map_first f zero states = refl
length-map_first f (suc n) [] = refl
length-map_first f (suc n) (s ∷ states) = ap suc (length-map_first f n states)

-- Marking keeps what an entry needs, but for the count of the members.
module _ {e : Entry} (member : ℕ) (v : EntryIsValid e) (r : IsRunning e member) where
  pub marked_count :
      (mark : ℕ)
      → unfinished (take e.member_count (set e.member_states member mark))
          + (if mark == 2 then 1 else 0)
        ≡ e.remaining
  marked_count mark =
      unfinished-set e.member_states e.member_count member mark r.inside
        (omega (arith, v.room, v.within, r.inside)) r.not_ended
      ∙ sym v.counts

  pub marked_room : (mark : ℕ) → length (set e.member_states member mark) ≡ member_cap
  marked_room mark = length-set e.member_states member mark ∙ v.room

  pub some_left : 1 ≤ e.remaining
  some_left = omega (arith, marked_count 2)

  pub active_state : is_done_state e.state ≡ false
  active_state = v.done_iff ∙ ground (arith, some_left)

  pub not_done : e.is_done ≡ false
  not_done = v.done_same ∙ active_state

  pub marked-IsValid : (mark : ℕ) → (mark == 2) ≡ false → EntryIsValid (mark_member e member mark)
  marked-IsValid mark h = record {
    room = marked_room mark;
    within = v.within;
    counts = ground (arith, marked_count mark);
    done_iff = v.done_iff;
    done_same = v.done_same;
  }

  pub stop_member-IsValid : EntryIsValid (stop_member e member)
  unfolding stop_member
  stop_member-IsValid = elim (Bool-cases (all_members_stopped (mark_member e member 1))) [
    | inl all_ ↦ rw all_ (record {
      room = marked_room 1;
      within = v.within;
      counts = omega (arith, marked_count 1);
      done_iff = ground (arith, some_left);
      done_same = not_done;
    })
    | inr some_ ↦ rw some_ (marked-IsValid 1 refl)
  ]

  pub continue_member-IsValid : EntryIsValid (continue_member e member)
  unfolding continue_member
  continue_member-IsValid = record {
    room = marked_room 0;
    within = v.within;
    counts = omega (arith, marked_count 0);
    done_iff = ground (arith, some_left);
    done_same = not_done;
  }
