-- ===== src/Mandelbrot/Polling.antt =====
-- The polling loop of benchmark/snakefish/mandelbrot.py and benchmark/multiprocessing/mandelbrot.py: it ends, and draws from the
-- generators what they make.
use snakefish.Prelude.{
  ltb, if◌then◌else◌, length, get_elem?, set, Result, ok, ℕ, suc, ◌+◌, ◌≤◌, ◌<◌, ◌≡◌, refl, ◌∙◌,
  Bool, true, false, some, List, [], ◌∷◌, ◌++◌, map, append-nil, length-map, length-append, arith,
}
use snakefish.Mandelbrot.{Row}
use snakefish.Mandelbrot.Loop.{Client, Answer, Polled, on_answer, pop, visit, poll_all}
use snakefish.Mandelbrot.Totals.{
  total, total-set, total-pop, map-set, map-pop, map-append, get_elem?-map, get_elem?-some,
}
use snakefish.Mandelbrot.Ordering.{count}

-- A generator as its polls leave it: its process, whether it owes an answer, and the rows that are not read.
abbrev pub Source : Type 0
Source = ℕ × Bool × List ℕ

-- How many polls find an answer.
abbrev pub answered : List Bool → ℕ
answered [] = 0
answered (b ∷ bs) = (if b then 1 else 0) + answered bs

pub count-append : (k : ℕ) (xs ys : List ℕ) → count k (xs ++ ys) ≡ count k xs + count k ys
count-append k [] ys = omega arith
count-append k (x ∷ xs) ys = omega (arith, count-append k xs ys)

-- What a source still makes, and the polls that it takes to read it.
abbrev pub left : Source → ℕ
left (pid, asked, ys) = length ys

abbrev pub polls : Source → ℕ
polls (pid, asked, ys) = suc (length ys)

abbrev pub times : ℕ → Source → ℕ
times k (pid, asked, ys) = count k ys

-- The rows, read or not, are the same.
record Same (gs : List Source) (acc : List ℕ) (gs' : List Source) (acc' : List ℕ) : Type 0 where
  all : length acc' + total left gs' ≡ length acc + total left gs
  each : (k : ℕ) → count k acc' + total (times k) gs' ≡ count k acc + total (times k) gs

Same-set :
    (gs : List Source) (acc : List ℕ) (i : ℕ) (s s' : Source) (read : List ℕ)
    → get_elem? gs i ≡ some s
    → left s ≡ length read + left s'
    → ((k : ℕ) → times k s ≡ count k read + times k s')
    → Same gs acc (set gs i s') (acc ++ read)
Same-set gs acc i s s' read e l c = record {
  all = omega (arith, l, total-set left gs i s s' e, length-append acc read);
  each = λ k. omega (arith, c k, total-set (times k) gs i s s' e, count-append k acc read);
}

-- The law of a client: its generators behave like sources. `make` is the row of a number.
pub record Serves {G : Type 0} (client : Client G) (n : ℕ) (make : ℕ → Row) (generator : Source → G)
    : Type 0 where
  pub starts :
      (k : ℕ) (ys : List ℕ) → client.start k (map (λ y. (y, n)) ys) ≡ ok (generator (k, false, ys))
  pub early :
      (k : ℕ) (asked : Bool) (ys : List ℕ)
      → client.poll false (generator (k, asked, ys)) ≡ (Answer.not_ready, generator (k, true, ys))
  pub served :
      (k : ℕ) (asked : Bool) (y : ℕ) (ys : List ℕ)
      → client.poll true (generator (k, asked, y ∷ ys))
        ≡ (Answer.row (make y), generator (k, false, ys))
  pub stopped :
      (k : ℕ) (asked : Bool)
      → client.poll true (generator (k, asked, [])) ≡ (Answer.exhausted, generator (k, false, []))
  pub ended : (k : ℕ) → client.end_generator (generator (k, false, [])) ≡ ok tt

module _ {G : Type 0} (client : Client G) (n : ℕ) (make : ℕ → Row) (generator : Source → G)
    (serves : Serves client n make generator) where
  -- What a poll of one generator leaves.
  Visited : Bool → List Source → List ℕ → Result (Polled client) → Type 0
  Visited b gs acc r =
      (i' : ℕ) × ((gs' : List Source) × ((acc' : List ℕ) × ((r
              ≡ ok (i', map generator gs', map make acc'))
            × ((total polls gs' + (if b then 1 else 0) ≤ total polls gs) × Same gs acc gs' acc'))))

  visit-poll :
      (b : Bool) (i : ℕ) (gs : List Source) (rows : List Row) (s : Source)
      → get_elem? gs i ≡ some s
      → visit client b i (map generator gs) rows
        ≡ on_answer client i (map generator gs) rows (client.poll b (generator s))
  unfolding visit
  visit-poll b i gs rows s e = rw (visit, get_elem?-map generator gs i s e) refl

  visit-Visited :
      (b : Bool) (i : ℕ) (gs : List Source) (acc : List ℕ) (s : Source)
      → get_elem? gs i ≡ some s
      → Visited b gs acc (visit client b i (map generator gs) (map make acc))
  unfolding visit Visited
  visit-Visited false i gs acc (pid, asked, ys) e = (
    i + 1,
    (
      set gs i (pid, true, ys),
      (
        acc ++ [],
        (
          visit-poll false i gs (map make acc) (pid, asked, ys) e
              ∙ rw
                  (
                    serves.early pid asked ys,
                    map-set generator gs i (pid, true, ys),
                    append-nil acc,
                  )
                  refl,
          (
            omega (arith, total-set polls gs i (pid, asked, ys) (pid, true, ys) e),
            Same-set gs acc i (pid, asked, ys) (pid, true, ys) [] e (omega arith)
                (λ k. omega arith),
          ),
        ),
      ),
    ),
  )
  visit-Visited true i gs acc (pid, asked, y ∷ ys) e = (
    i + 1,
    (
      set gs i (pid, false, ys),
      (
        acc ++ (y ∷ []),
        (
          visit-poll true i gs (map make acc) (pid, asked, y ∷ ys) e
              ∙ rw
                  (
                    serves.served pid asked y ys,
                    map-set generator gs i (pid, false, ys),
                    map-append make acc (y ∷ []),
                  )
                  refl,
          (
            omega (arith, total-set polls gs i (pid, asked, y ∷ ys) (pid, false, ys) e),
            Same-set gs acc i (pid, asked, y ∷ ys) (pid, false, ys) (y ∷ []) e (omega arith)
                (λ k. omega arith),
          ),
        ),
      ),
    ),
  )
  visit-Visited true i gs acc (pid, asked, []) e = (
    0,
    (
      pop gs i,
      (
        acc,
        (
          visit-poll true i gs (map make acc) (pid, asked, []) e
              ∙ rw (serves.stopped pid asked, serves.ended pid, map-pop generator gs i) refl,
          (
            omega (arith, total-pop polls gs i (pid, asked, []) e),
            record {
              all = omega (arith, total-pop left gs i (pid, asked, []) e);
              each = λ k. omega (arith, total-pop (times k) gs i (pid, asked, []) e);
            },
          ),
        ),
      ),
    ),
  )

  some_index :
      (i : ℕ) (s : Source) (gs : List Source)
      → (if ltb i (length (s ∷ gs)) then i else 0) < length (s ∷ gs)
  some_index i s gs = ground arith

  -- What is read once the loop has ended.
  unfoldable pub Read : List Source → List ℕ → Result (List Row) → Type 0
  Read gs acc r =
      (acc' : List ℕ) × ((r ≡ ok (map make acc'))
        × ((length acc' ≡ length acc + total left gs)
            × ((k : ℕ) → count k acc' ≡ count k acc + total (times k) gs)))

  Read-Same :
      (gs gs' : List Source) (acc acc' : List ℕ) (r : Result (List Row))
      → Same gs acc gs' acc'
      → Read gs' acc' r
      → Read gs acc r
  unfolding Read
  Read-Same gs gs' acc acc' r same (rows, (e, (l, c))) =
      (rows, (e, (omega (arith, l, same.all), λ k. omega (arith, c k, same.each k))))

  -- Where enough polls find an answer the loop ends, all generators are joined, and what it has read is what
  -- they make, each row as often as they make it.
  pub poll_all-Read :
      (answers : List Bool) (i : ℕ) (gs : List Source) (acc : List ℕ)
      → total polls gs ≤ answered answers
      → Read gs acc (poll_all client answers i (map generator gs) (map make acc))
  unfolding poll_all Read Visited total
  poll_all-Read answers i [] acc h = (acc, (refl, (omega arith, λ k. omega arith)))
  poll_all-Read [] i (s ∷ gs) acc h = absurd (omega arith)
  poll_all-Read (b ∷ answers) i (s ∷ gs) acc h =
      let k = if ltb i (length (s ∷ gs)) then i else 0 in
      let (s', e) = get_elem?-some (s ∷ gs) k (some_index i s gs) in
      let (i', (gs', (acc', (visited, (fewer, same))))) = visit-Visited b k (s ∷ gs) acc s' e in
      rw (length-map generator gs, visited)
        (Read-Same (s ∷ gs) gs' acc acc'
          (poll_all client answers i' (map generator gs') (map make acc')) same
          (poll_all-Read answers i' gs' acc' (omega (arith, fewer))))
