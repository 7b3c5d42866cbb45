-- ===== src/PubSub/Topics.antt =====
-- The topic array and the subscriber arrays as tables: what a search finds, what a write changes.
use mathlib.Core.Option
use native.Mathlib.Decide.{ℕ_discrete}
use pub_sub_crawl.Base.{
  ℕ, zero, suc, ◌+◌, ◌-◌, ◌≤◌, ◌<◌, ◌≡◌, refl, ap, Bool, true, false, none, some, List, [], ◌∷◌,
  ◌++◌, arith, ◌||◌, ◌==◌, if◌then◌else◌, length, get_or, set, take, length-set, get_or-set_self,
  get_or-set_ne, Bytes, str_eq, str_eq→eq, str_eq_refl,
}
use pub_sub_crawl.PubSub.{Topic, find_from, index_of, swap_out}

-- The subscribers of the first topic of that name.
unfoldable pub subscribers : List Topic → Bytes → List ℕ
subscribers [] n = []
subscribers (t ∷ ts) n = if str_eq t.name n then t.subscribers else subscribers ts n

unfoldable pub known : List Topic → Bytes → Bool
known [] n = false
known (t ∷ ts) n = if str_eq t.name n then true else known ts n

-- How often a queue is among the subscribers.
unfoldable pub count : ℕ → List ℕ → ℕ
count r [] = 0
count r (s ∷ ss) = (if s == r then 1 else 0) + count r ss

pub find_from-suc :
    (ts : List Topic) (n : Bytes) (i : ℕ)
    → find_from ts n (i + 1) ≡ Option.map suc (find_from ts n i)
unfolding find_from
find_from-suc [] n i = refl
find_from-suc (t ∷ ts) n i = ground (arith, find_from-suc ts n (i + 1))

pub index_of-suc :
    (q : ℕ) (ss : List ℕ) (i : ℕ) → index_of q ss (i + 1) ≡ Option.map suc (index_of q ss i)
unfolding index_of
index_of-suc q [] i = refl
index_of-suc q (s ∷ ss) i = ground (arith, index_of-suc q ss (i + 1))

-- What a search tells of the table.
pub find_from-none :
    (ts : List Topic) (n : Bytes)
    → find_from ts n 0 ≡ none
    → (known ts n ≡ false) × (subscribers ts n ≡ [])
unfolding find_from known subscribers
find_from-none [] n e = (refl, refl)
find_from-none (t ∷ ts) n e = ground (arith, find_from-suc ts n 0, find_from-none ts n)

abbrev pub no_topic : Topic
no_topic = record { name = []; subscribers = [] }

pub find_from-some :
    (ts : List Topic) (n : Bytes) (k : ℕ)
    → find_from ts n 0 ≡ some k
    → (k < length ts)
      × (known ts n ≡ true)
      × (subscribers ts n ≡ (get_or ts k no_topic).subscribers)
unfolding find_from known subscribers
find_from-some [] n k e = cc
find_from-some (t ∷ ts) n zero e = ground (arith, find_from-suc ts n 0)
find_from-some (t ∷ ts) n (suc k) e = ground (arith, find_from-suc ts n 0, find_from-some ts n k)

-- A write of a subscriber list to the entry found changes that topic and no other.
pub subscribers-set :
    (ts : List Topic) (n m : Bytes) (k : ℕ) (ss : List ℕ)
    → find_from ts n 0 ≡ some k
    → subscribers (set ts k (record (get_or ts k no_topic) { subscribers = ss })) m
      ≡ (if str_eq n m then ss else subscribers ts m)
unfolding find_from subscribers
subscribers-set [] n m k ss e = cc
subscribers-set (t ∷ ts) n m zero ss e = ground (arith, find_from-suc ts n 0, str_eq→eq t.name n)
subscribers-set (t ∷ ts) n m (suc k) ss e = ground (
  arith,
  find_from-suc ts n 0,
  subscribers-set ts n m k ss,
  str_eq→eq t.name m,
  str_eq→eq n m,
  str_eq_refl n,
  str_eq_refl m,
)

pub known-set :
    (ts : List Topic) (m : Bytes) (k : ℕ) (ss : List ℕ)
    → k < length ts
    → known (set ts k (record (get_or ts k no_topic) { subscribers = ss })) m ≡ known ts m
unfolding known
known-set [] m k ss h = refl
known-set (t ∷ ts) m zero ss h = refl
known-set (t ∷ ts) m (suc k) ss h = ground (arith, known-set ts m k ss)

-- A new topic at the end is found under its name, with no subscribers, and changes no other.
pub subscribers-append :
    (ts : List Topic) (n m : Bytes)
    → subscribers (ts ++ record { name = n; subscribers = [] } ∷ []) m ≡ subscribers ts m
unfolding subscribers
subscribers-append [] n m = ground arith
subscribers-append (t ∷ ts) n m = ground (arith, subscribers-append ts n m)

pub find_from-append :
    (ts : List Topic) (n : Bytes) (t : Topic)
    → find_from ts n 0 ≡ none
    → str_eq t.name n ≡ true
    → find_from (ts ++ t ∷ []) n 0 ≡ some (length ts)
unfolding find_from
find_from-append [] n t e h = ground arith
find_from-append (u ∷ ts) n t e h =
    ground (arith, find_from-suc ts n 0, find_from-suc (ts ++ t ∷ []) n 0, find_from-append ts n t)

pub known-append :
    (ts : List Topic) (n m : Bytes)
    → known (ts ++ record { name = n; subscribers = [] } ∷ []) m ≡ (known ts m || str_eq n m)
unfolding known
known-append [] n m = ground arith
known-append (t ∷ ts) n m = ground (arith, known-append ts n m)

pub get_or-append : (ts : List Topic) (t : Topic) → get_or (ts ++ t ∷ []) (length ts) no_topic ≡ t
get_or-append [] t = refl
get_or-append (u ∷ ts) t = get_or-append ts t

pub take-whole : (n : ℕ) (xs : Bytes) → length xs ≤ n → take n xs ≡ xs
take-whole zero [] h = refl
take-whole zero (x ∷ xs) h = absurd (omega arith)
take-whole (suc n) [] h = refl
take-whole (suc n) (x ∷ xs) h = ap (◌∷◌ x) (take-whole n xs (omega arith))

pub index_of-none : (q : ℕ) (ss : List ℕ) → index_of q ss 0 ≡ none → count q ss ≡ 0
unfolding index_of count
index_of-none q [] e = refl
index_of-none q (s ∷ ss) e = ground (arith, index_of-suc q ss 0, index_of-none q ss)

pub index_of-some :
    (q : ℕ) (ss : List ℕ) (j : ℕ)
    → index_of q ss 0 ≡ some j
    → (j < length ss) × (get_or ss j 0 ≡ q) × (0 < count q ss)
unfolding index_of count
index_of-some q [] j e = cc
index_of-some q (s ∷ ss) zero e = ground (arith, index_of-suc q ss 0)
index_of-some q (s ∷ ss) (suc j) e = ground (arith, index_of-suc q ss 0, index_of-some q ss j)

pub count-append :
    (r : ℕ) (ss : List ℕ) (q : ℕ) → count r (ss ++ q ∷ []) ≡ count r ss + (if q == r then 1 else 0)
unfolding count
count-append r [] q = ground arith
count-append r (s ∷ ss) q = ground (arith, count-append r ss q)

-- Dropping the last entry of a list that is not empty.
count-take-last :
    (r : ℕ) (s : ℕ) (ss : List ℕ)
    → count r (take (length ss) (s ∷ ss)) + (if get_or (s ∷ ss) (length ss) 0 == r then 1 else 0)
      ≡ count r (s ∷ ss)
unfolding count
count-take-last r s [] = ground arith
count-take-last r s (t ∷ ts) = omega (arith, count-take-last r t ts)

count-set :
    (r : ℕ) (ss : List ℕ) (j v : ℕ)
    → j < length ss
    → count r (set ss j v) + (if get_or ss j 0 == r then 1 else 0)
      ≡ count r ss + (if v == r then 1 else 0)
unfolding count
count-set r [] j v h = absurd (omega arith)
count-set r (s ∷ ss) zero v h = omega arith
count-set r (s ∷ ss) (suc j) v h = omega (arith, count-set r ss j v)

count-drop_last :
    (r : ℕ) (xs : List ℕ)
    → 0 < length xs
    → count r (take (length xs - 1) xs) + (if get_or xs (length xs - 1) 0 == r then 1 else 0)
      ≡ count r xs
count-drop_last r [] h = absurd (omega arith)
count-drop_last r (s ∷ ss) h =
    let e : length ss ≡ suc (length ss) - 1 = omega arith in rw e at (count-take-last r s ss)

get_or-set_last :
    (ss : List ℕ) (j k : ℕ) → k < length ss → get_or (set ss j (get_or ss k 0)) k 0 ≡ get_or ss k 0
get_or-set_last ss j k h = elim (ℕ_discrete j k) [
  | yes e ↦ rw e (get_or-set_self ss k (get_or ss k 0) 0 h)
  | no ne ↦ get_or-set_ne ss (get_or ss k 0) 0 ne
]

-- The swap takes out one occurrence of the queue found, and nothing else.
pub count-swap_out :
    (q r : ℕ) (ss : List ℕ) (j : ℕ)
    → index_of q ss 0 ≡ some j
    → count r (swap_out ss j) + (if q == r then 1 else 0) ≡ count r ss
count-swap_out q r ss j e = ground (
  arith,
  index_of-some q ss j,
  count-drop_last r (set ss j (get_or ss (length ss - 1) 0)),
  length-set ss j (get_or ss (length ss - 1) 0),
  count-set r ss j (get_or ss (length ss - 1) 0),
  get_or-set_last ss j (length ss - 1),
)

pub subscribers-unknown : (ts : List Topic) (n : Bytes) → known ts n ≡ false → subscribers ts n ≡ []
unfolding known subscribers
subscribers-unknown [] n e = refl
subscribers-unknown (t ∷ ts) n e = ground (arith, subscribers-unknown ts n)
