-- ===== src/History/Fresh.antt =====
-- `gsh_history_initialize` and `gsh_history_clear` make any allocated store an empty valid one.
use gsh.Prelude.{
  ℕ, zero, suc, ◌<◌, List, [], ◌∷◌, length, replicate, get_or, length-replicate, map, ◌≡◌, refl, ap,
  ◌∙◌, arith,
}
use gsh.History.{HistoryStore, history_cap, entry_cap, initialize, clear, zeroed}
use gsh.History.Ring.{IsValid, log_of}

-- The arrays of the store, whatever they hold.
pub record IsAllocated (s : HistoryStore) : Type 0 where
  pub slots : length s.entries ≡ history_cap
  pub sizes : length s.lengths ≡ history_cap
  pub rooms : (i : ℕ) → i < history_cap → length (get_or s.entries i []) ≡ entry_cap

get_or-replicate {ℓ} : {A : Type ℓ} (n i : ℕ) (a : A) → get_or (replicate n a) i a ≡ a
get_or-replicate zero i a = refl
get_or-replicate (suc n) zero a = refl
get_or-replicate (suc n) (suc i) a = get_or-replicate n i a

get_or-replicate_lt {ℓ} : {A : Type ℓ} (n i : ℕ) (a d : A) → i < n → get_or (replicate n a) i d ≡ a
get_or-replicate_lt zero i a d h = absurd (omega arith)
get_or-replicate_lt (suc n) zero a d h = refl
get_or-replicate_lt (suc n) (suc i) a d h = get_or-replicate_lt n i a d (omega arith)

zero_length : (n i : ℕ) → get_or (replicate n 0) i 0 < entry_cap
zero_length n i = omega (arith, get_or-replicate {A = ℕ} n i 0)

-- An empty valid history, which numbers its next event 1.
pub record IsFresh (s : HistoryStore) : Type 0 where
  pub valid : IsValid s
  pub no_commands : (log_of s).commands ≡ []
  pub first : (log_of s).next ≡ 1

-- `gsh_history_initialize` makes an allocated store an empty valid history, whose first event will
-- be number 1.
pub initialize-IsFresh : {s : HistoryStore} → IsAllocated s → IsFresh (initialize s)
unfolding initialize
initialize-IsFresh {s} a = record {
  valid = record {
    slots = a.slots;
    sizes = length-replicate (length s.lengths) 0 ∙ a.sizes;
    start_lt = omega arith;
    count_le = omega arith;
    count-lt-next = omega arith;
    next_lt = omega arith;
    fits = λ i h. (zero_length (length s.lengths) i, a.rooms i h);
  };
  no_commands = refl;
  first = refl;
}

length-map : (f : List ℕ → List ℕ) (xs : List (List ℕ)) → length (map f xs) ≡ length xs
length-map f [] = refl
length-map f (x ∷ xs) = ap suc (length-map f xs)

-- Each slot keeps its size when its bytes are zeroed.
room-zeroed :
    (xs : List (List ℕ)) (i : ℕ) → length (get_or (map zeroed xs) i []) ≡ length (get_or xs i [])
room-zeroed [] i = refl
room-zeroed (x ∷ xs) zero = length-replicate (length x) 0
room-zeroed (x ∷ xs) (suc i) = room-zeroed xs i

-- `gsh_history_clear` makes an allocated store an empty valid history, whose first event will be
-- number 1.
pub clear-IsFresh : {s : HistoryStore} → IsAllocated s → IsFresh (clear s)
unfolding clear
clear-IsFresh {s} a = record {
  valid = record {
    slots = length-map zeroed s.entries ∙ a.slots;
    sizes = length-replicate (length s.lengths) 0 ∙ a.sizes;
    start_lt = omega arith;
    count_le = omega arith;
    count-lt-next = omega arith;
    next_lt = omega arith;
    fits = λ i h. (zero_length (length s.lengths) i, room-zeroed s.entries i ∙ a.rooms i h);
  };
  no_commands = refl;
  first = refl;
}

-- A store of `slots` slots of `size` zero bytes, as in static memory.
pub zero_store : ℕ → ℕ → HistoryStore
zero_store slots size = record {
  lengths = replicate slots 0;
  start = 0;
  count = 0;
  next_event = 0;
  entries = replicate slots (replicate size 0);
}

pub zero_store-IsAllocated :
    (slots size : ℕ) → slots ≡ history_cap → size ≡ entry_cap → IsAllocated (zero_store slots size)
unfolding zero_store
zero_store-IsAllocated slots size h k = record {
  slots = length-replicate slots (replicate size 0) ∙ h;
  sizes = length-replicate slots 0 ∙ h;
  rooms = λ i lt.
      ap length (get_or-replicate_lt slots i (replicate size 0) [] (omega arith))
      ∙ length-replicate size 0
      ∙ k;
}
