-- ===== src/WorkerPool/Lifecycle.antt =====
-- `worker_pool_create` on every failure, and `worker_pool_destroy`.
use native.Mathlib.Decide.{ℕ_discrete}
use pub_sub_crawl.Base.{
  ℕ, zero, suc, ◌+◌, ◌<◌, ◌≤◌, ◌≡◌, ◌≢◌, ◌∙◌, sym, ap, refl, Bool, true, false, not, ◌&&◌, none,
  some, List, [], ◌∷◌, ◌++◌, arith, ◌==◌, if◌then◌else◌,
}
use pub_sub_crawl.WorkerPool.{
  Start, started, no_context, no_thread, Held, Created, nothing_held, remove, with_context,
  free_context, start_thread, free_threads, free_pool, keep_pool, create, destroy, join_threads,
  start_threads, effective_count,
}

-- `m` of at most `n` threads run: those before the first that does not start.
pub record Runs (n m : ℕ) (starts : ℕ → Start) : Type 0 where
  pub bounded : m ≤ n
  pub ran : (j : ℕ) → j < m → starts j ≡ started
  pub stopped : m < n → starts m ≢ started

-- What is known of the number at which a loop stops that is to start `n` threads from `i` on.
abbrev Stops : ℕ → ℕ → (ℕ → Start) → ℕ → Type 0
Stops n i starts m =
    (i ≤ m)
    × (m ≤ i + n)
    × ((j : ℕ) → i ≤ j → j < m → starts j ≡ started)
    × (m < i + n → starts m ≢ started)

start_threads-Stops :
    (n i : ℕ) (starts : ℕ → Start) (h : Held) → Stops n i starts (start_threads n starts i h).0
unfolding start_threads
start_threads-Stops zero i starts h =
    (omega arith, omega arith, λ j g k. absurd (omega arith), λ g. absurd (omega arith))
start_threads-Stops (suc n) i starts h =
    pick (starts i) refl (start_threads n starts (i + 1) (with_context i h))
      (start_threads-Stops n (i + 1) starts (with_context i h))
  where
    pick :
        (s : Start)
        → starts i ≡ s
        → (more : ℕ × Held) → Stops n (i + 1) starts more.0
        → Stops (suc n) i starts (start_thread s i h more).0
    pick started e more (low, high, ran, stop) = (
      omega arith,
      omega arith,
      λ j g k. elim (ℕ_discrete i j) [
        | yes same ↦ ap starts (sym same) ∙ e
        | no ne ↦ ran j (omega arith) k
      ],
      λ g. stop (omega arith),
    )
    pick no_context e more ih = (omega arith, omega arith, λ j g k. absurd (omega arith), λ g f. cc)
    pick no_thread e more ih = (omega arith, omega arith, λ j g k. absurd (omega arith), λ g f. cc)

-- The numbers from `i` on, `n` of them.
abbrev pub span : ℕ → ℕ → List ℕ
span i zero = []
span i (suc n) = i ∷ span (i + 1) n

span-append : (i n k : ℕ) → k ≡ i + n → span i n ++ k ∷ [] ≡ span i (suc n)
span-append i zero k e = ap (λ m. m ∷ []) (omega arith)
span-append i (suc n) k e = ap (◌∷◌ i) (span-append (i + 1) n k (omega arith))

remove-last : (i n k : ℕ) → k ≡ i + n → remove k (span i n ++ k ∷ []) ≡ span i n
remove-last i zero k e = ground arith
remove-last i (suc n) k e = let rest = remove-last (i + 1) n k (omega arith) in ground (arith, rest)

abbrev spanned : Held → ℕ → Held
spanned h m = record h { contexts = span 0 m }

-- A context for each thread that runs, whatever stops the loop.
start_threads-held :
    (n i : ℕ) (starts : ℕ → Start) (h : Held)
    → h.contexts ≡ span 0 i
    → (start_threads n starts i h).1 ≡ spanned h (start_threads n starts i h).0
unfolding start_threads
start_threads-held zero i starts h e = ap (λ l. record h { contexts = l }) e
start_threads-held (suc n) i starts h e =
    let next : suc i ≡ i + 1 = omega arith in
    let longer : h.contexts ++ i ∷ [] ≡ span 0 (i + 1) =
      ap (λ l. l ++ i ∷ []) e ∙ span-append 0 i i (omega arith) ∙ ap (span 0) next in
    pick (starts i) (start_threads n starts (i + 1) (with_context i h))
      (start_threads-held n (i + 1) starts (with_context i h) longer)
  where
    freed : remove i (h.contexts ++ i ∷ []) ≡ span 0 i
    freed = ap (λ l. remove i (l ++ i ∷ [])) e ∙ remove-last 0 i i (omega arith)

    pick :
        (s : Start) (more : ℕ × Held)
        → more.1 ≡ spanned h more.0
        → (start_thread s i h more).1 ≡ spanned h (start_thread s i h more).0
    pick started more ih = ih
    pick no_context more ih = ap (λ l. record h { contexts = l }) e
    pick no_thread more ih = ap (λ l. record h { contexts = l }) freed

join_threads-span :
    (n i : ℕ) (h : Held) → h.contexts ≡ span i n → join_threads n i h ≡ record h { contexts = [] }
join_threads-span zero i h e = ap (λ l. record h { contexts = l }) e
join_threads-span (suc n) i h e =
    join_threads-span n (i + 1) (free_context i h) (ap (remove i) e ∙ ground arith)

-- A pool of `m` running threads, with a block for each, one for the pool and one for its array.
abbrev pub staffed : ℕ → Created
staffed m = record {
  pool = some m;
  held = record { pool_block = true; threads_block = true; contexts = span 0 m };
}

abbrev pub unstaffed : Created
unstaffed = record { pool = none; held = nothing_held }

abbrev pub Staffed : Bool → (ℕ → Start) → ℕ → Created → Type 0
Staffed ready starts n c =
    (m : ℕ) × Runs n m starts
    × (c ≡ (if ready && not (m == 0) then staffed m else unstaffed))
    × (destroy c ≡ nothing_held)

destroy-staffed : (m : ℕ) → destroy (staffed m) ≡ nothing_held
destroy-staffed m =
    ap (λ h. free_pool (free_threads h)) (join_threads-span m 0 (staffed m).held refl)

keep_pool-lem :
    (m : ℕ) → keep_pool (m, (staffed m).held) ≡ (if not (m == 0) then staffed m else unstaffed)
keep_pool-lem zero = refl
keep_pool-lem (suc m) = ground arith

-- A pool without threads is none.
result-destroyed : (b : Bool) (m : ℕ) → destroy (if b then staffed m else unstaffed) ≡ nothing_held
result-destroyed true m = destroy-staffed m
result-destroyed false m = refl

create-lem :
    (pointers pool_ok threads_ok : Bool) (starts : ℕ → Start) (thread_count : ℕ)
    → create pointers pool_ok threads_ok starts thread_count ≡ (
        if pointers && pool_ok && threads_ok
        then keep_pool (start_threads (effective_count thread_count) starts 0 (staffed 0).held)
        else unstaffed)
unfolding create
create-lem true true true starts thread_count = refl
create-lem true true false starts thread_count = refl
create-lem true false c starts thread_count = refl
create-lem false b c starts thread_count = refl

narrow :
    (ready : Bool) (m : ℕ)
    → (if ready then (if not (m == 0) then staffed m else unstaffed) else unstaffed)
      ≡ (if ready && not (m == 0) then staffed m else unstaffed)
narrow true m = refl
narrow false m = refl

-- Whatever fails, `worker_pool_create` leaves no block behind without a pool, and a pool has the
-- threads before the first that did not start, at least one, with a context for each;
-- worker_pool_destroy leaves no block either.
pub create-Staffed :
    (pointers pool_ok threads_ok : Bool) (starts : ℕ → Start) (thread_count : ℕ)
    → Staffed
        (pointers && pool_ok && threads_ok)
        starts
        (effective_count thread_count)
        (create pointers pool_ok threads_ok starts thread_count)
create-Staffed pointers pool_ok threads_ok starts thread_count =
    let n : ℕ = effective_count thread_count in
    let h : Held = (staffed 0).held in
    let m : ℕ = (start_threads n starts 0 h).0 in
    let ready : Bool = pointers && pool_ok && threads_ok in
    let (low, high, ran, stop) = start_threads-Stops n 0 starts h in
    let kept =
      ap (λ x. keep_pool (m, x)) (start_threads-held n 0 starts h refl) ∙ keep_pool-lem m in
    let made =
      create-lem pointers pool_ok threads_ok starts thread_count
      ∙ ap (λ c. if ready then c else unstaffed) kept
      ∙ narrow ready m in
    (
      m,
      record {
        bounded = omega (arith, high);
        ran = λ j k. ran j (omega arith) k;
        stopped = λ k. stop (omega arith);
      },
      made,
      ap destroy made ∙ result-destroyed (ready && not (m == 0)) m,
    )
