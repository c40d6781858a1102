-- ===== src/Misc/Correct.antt =====
-- `snakefish.map` computes the plain map, whatever the concurrency and the chunk size.
use snakefish.Prelude.{
  if◌then◌else◌, List-cases, take, drop, drop-nil, take-nil, drop-drop, take_add, eq_nil_of_take,
  Exc, Result, ◌>>=◌, map_result, extend, Result-cases, >>=_assoc, map_result_chain, unspecified,
  ok, err, ℕ, zero, suc, ◌*◌, ◌<◌, ◌≡◌, refl, sym, ap, ◌∙◌, inl, inr, Bool, true, false, none, List,
  [], ◌∷◌, ◌++◌, append-nil, arith,
}
use mathlib.Core.Path.{fun_ext}
use native.Mathlib.Nat.{zero-mul}
use snakefish.Job.{Value, run_all, run_all-eq-map_result}
use snakefish.Thread.{Thread}
use snakefish.Thread.Process.{exited}
use snakefish.Misc
use snakefish.Misc.{round_up_div, split_args, spawn_thread, spawn, join_all, batches, outcome}

pub split_args-eq-take-drop {ℓ} :
    {A : Type ℓ} (k : ℕ) (iter : List A) → split_args k iter ≡ (take k iter, drop k iter)
unfolding split_args
split_args-eq-take-drop zero iter = refl
split_args-eq-take-drop (suc k) [] = refl
split_args-eq-take-drop (suc k) (x ∷ iter) =
    ap (λ t. (x ∷ t.0, t.1)) (split_args-eq-take-drop k iter)

-- What `get_result` makes of the child's exception: it is raised again only if it is the first that the process
-- has received of a thread.
abbrev pub raised_again {ℓ} : {A : Type ℓ} → Result A → Bool → Result A
raised_again (ok a) exc_received = ok a
raised_again (err e) false = err e
raised_again (err e) true = err unspecified

raised_again-cons {ℓ} :
    {B : Type ℓ} (r : Result B) (m : Result (List B)) (exc_received : Bool)
    → (raised_again r exc_received >>= λ y. raised_again m exc_received >>= λ ys. ok (y ∷ ys))
      ≡ raised_again (r >>= λ y. m >>= λ ys. ok (y ∷ ys)) exc_received
raised_again-cons (ok y) (ok ys) x = refl
raised_again-cons (ok y) (err e) true = refl
raised_again-cons (ok y) (err e) false = refl
raised_again-cons (err e) m true = refl
raised_again-cons (err e) m false = refl

pub map_result-raised_again {ℓ κ} :
    {A : Type ℓ} {B : Type κ} (h : A → Result B) (exc_received : Bool) (args : List A)
    → map_result (λ a. raised_again (h a) exc_received) args
      ≡ raised_again (map_result h args) exc_received
map_result-raised_again h exc_received [] = refl
map_result-raised_again h exc_received (a ∷ args) =
    rw (map_result-raised_again h exc_received args)
      (raised_again-cons (h a) (map_result h args) exc_received)

-- The list of results, whatever has become of the globals.
abbrev pub list_of {ℓ κ} : {A : Type ℓ} {B : Type κ} → Result (A × B) → Result A
list_of r = r >>= λ (a, _). ok a

module _ {G A B : Type 0} (f : A → G → Result B × G) (type_of traceback_of : Exc → Value B)
    (join_lines : Value B → Value B) (extract : G → Value B) (merge : G → Value B → G)
    (merging : Bool) (pid : ℕ) (exc_received : Bool) (h : A → Result B)
    (f_pure : (a : A) (g : G) → (f a g).0 ≡ h a) where
  abbrev Job : Type 0
  Job = Thread (Value B)

  -- The function as the parent sees it.
  abbrev pub reported : A → Result B
  reported a = raised_again (h a) exc_received

  -- A thread whose child has run to its end.
  done : List A → G → Job
  done thread_args g = record {
    is_parent = true;
    child_pid = pid;
    started = true;
    joined = false;
    alive = false;
    child_status = exited 0;
    ret_val = none;
    exc_type = none;
    exc_traceback = none;
    channel =
        snakefish.Thread.sent (Misc.as_exception {B = B}) join_lines extract merge merging
          (outcome type_of traceback_of (run_all f thread_args g).0) (run_all f thread_args g).1;
    merging = merging;
  }

  spawn_thread-eq-done :
      (args : List A) (g : G)
      → spawn_thread f type_of traceback_of join_lines extract merge merging pid exc_received args g
        ≡ ok (done args g)
  unfolding done spawn_thread
  spawn_thread-eq-done args g = refl

  threads : ℕ → ℕ → List A → G → List Job
  threads k zero iter g = []
  threads k (suc j) iter g =
      let more = threads k j (drop k iter) g in
      elim (take k iter) [ [] ↦ [] | x ∷ xs ↦ done (x ∷ xs) g ∷ more ]

  -- A batch takes `j` chunks of `k` arguments off the iterator.
  spawn-eq-threads :
      (k j : ℕ) (iter : List A) (g : G)
      → 0 < k
      → spawn f type_of traceback_of join_lines extract merge merging pid exc_received k j iter g
        ≡ ok (threads k j iter g, drop (j * k) iter)
  unfolding spawn threads
  spawn-eq-threads k zero iter g k_pos = rw zero-mul
  spawn-eq-threads k (suc j) iter g k_pos = elim (List-cases (take k iter)) [
    | inl none_left ↦
        rw (split_args-eq-take-drop, none_left, spawn, threads)
          (ap (λ t. ok ([], t))
            (ap (λ t. t.1) (split_args-eq-take-drop k iter)
              ∙ rw (eq_nil_of_take k iter k_pos none_left)
                  (drop-nil A k ∙ sym (drop-nil A (suc j * k)))))
    | inr (x, xs, some_left) ↦
        rw (split_args-eq-take-drop, some_left, spawn, threads)
          (rw
            (
              split_args-eq-take-drop,
              spawn_thread-eq-done,
              spawn-eq-threads k j (drop k iter) g k_pos,
            )
            (ap (λ t. ok (done (x ∷ xs) g ∷ threads k j (drop k iter) g, t))
              (drop-drop k (j * k) (suc j * k) iter (omega arith))))
  ]

  -- The globals of the parent once a thread is joined.
  joined_globals : List A → G → G → G
  joined_globals args at_fork g =
      if merging then merge g (extract (run_all f args at_fork).1) else g

  join_all-done :
      (args : List A) (at_fork : G) (ts : List Job) (acc : List B) (g : G)
      → join_all f type_of traceback_of join_lines extract merge merging pid exc_received
          (done args at_fork ∷ ts)
          acc
          g
        ≡ (extend acc (map_result reported args) >>= λ acc'.
            join_all f type_of traceback_of join_lines extract merge merging pid exc_received ts
              acc'
              (joined_globals args at_fork g))
  unfolding join_all done joined_globals
  join_all-done args at_fork ts acc g =
      rw
        (
          map_result-raised_again h exc_received args,
          ← run_all-eq-map_result f h f_pure args at_fork,
        )
        (elim (Result-cases (run_all f args at_fork).0) [
          | inl (bs, e) ↦ ground arith
          | inr (x, e) ↦ ground arith
        ])

  -- The globals of the parent once a batch is joined: each child began with those at the fork, and the
  -- merges are made in the order of the arguments.
  batch_globals : ℕ → ℕ → List A → G → G → G
  batch_globals k zero iter at_fork g = g
  batch_globals k (suc j) iter at_fork g =
      let more = batch_globals k j (drop k iter) at_fork in
      elim (take k iter) [ [] ↦ g | x ∷ xs ↦ more (joined_globals (x ∷ xs) at_fork g) ]

  join_all-nil :
      (acc : List B) (g : G)
      → join_all f type_of traceback_of join_lines extract merge merging pid exc_received [] acc g
        ≡ ok (acc, g)
  unfolding join_all
  join_all-nil acc g = refl

  -- Joining a batch appends the map of the arguments that it covers.
  join_all-threads :
      (k j m : ℕ) (iter : List A) (at_fork : G) (acc : List B) (g : G)
      → 0 < k
      → m ≡ j * k
      → join_all f type_of traceback_of join_lines extract merge merging pid exc_received
          (threads k j iter at_fork)
          acc
          g
        ≡ (extend acc (map_result reported (take m iter)) >>= λ acc'.
            ok (acc', batch_globals k j iter at_fork g))
  unfolding threads batch_globals
  join_all-threads k zero m iter at_fork acc g k_pos e =
      rw (e, zero-mul, append-nil) (join_all-nil acc g)
  join_all-threads k (suc j) m iter at_fork acc g k_pos e = elim (List-cases (take k iter)) [
    | inl none_left ↦
        rw (none_left, threads, batch_globals)
          (rw (eq_nil_of_take k iter k_pos none_left, take-nil, append-nil) (join_all-nil acc g))
    | inr (x, xs, some_left) ↦
        rw (some_left, threads, batch_globals)
          (join_all-done (x ∷ xs) at_fork (threads k j (drop k iter) at_fork) acc g
            ∙ ap (λ t. extend acc (map_result reported (x ∷ xs)) >>= t)
                (fun_ext λ acc'.
                  join_all-threads k j (j * k) (drop k iter) at_fork acc'
                    (joined_globals (x ∷ xs) at_fork g) k_pos refl)
            ∙ map_result_chain reported
                (λ acc'. ok (
                  acc',
                  batch_globals k j (drop k iter) at_fork (joined_globals (x ∷ xs) at_fork g),
                ))
                acc (x ∷ xs) (take (j * k) (drop k iter))
            ∙ ap
                (λ t. extend acc (map_result reported t) >>= λ acc'. ok (
                  acc',
                  batch_globals k j (drop k iter) at_fork (joined_globals (x ∷ xs) at_fork g),
                ))
                (ap (λ t. t ++ take (j * k) (drop k iter)) (sym some_left)
                  ∙ sym (take_add k (j * k) m iter (omega arith))))
  ]

  -- The globals of the parent after `n` batches of at most `c` chunks of `k` arguments.
  pub all_globals : ℕ → ℕ → ℕ → List A → G → G
  all_globals c k zero iter g = g
  all_globals c k (suc n) iter g =
      all_globals c k n (drop (c * k) iter) (batch_globals k c iter g g)

  pub batches-eq-map_result :
      (c k n m : ℕ) (iter : List A) (acc : List B) (g : G)
      → 0 < k
      → m ≡ n * (c * k)
      → batches f type_of traceback_of join_lines extract merge merging pid exc_received c k n iter
          acc g
        ≡ (extend acc (map_result reported (take m iter)) >>= λ acc'.
            ok (acc', all_globals c k n iter g))
  unfolding batches all_globals
  batches-eq-map_result c k zero m iter acc g k_pos e = rw (e, zero-mul, append-nil)
  batches-eq-map_result c k (suc n) m iter acc g k_pos e =
      rw (spawn-eq-threads k c iter g k_pos, join_all-threads k c (c * k) iter g acc g k_pos refl)
        (>>=_assoc (extend acc (map_result reported (take (c * k) iter))) _ _
          ∙ ap (λ t. extend acc (map_result reported (take (c * k) iter)) >>= t)
              (fun_ext λ acc'.
                batches-eq-map_result c k n (n * (c * k)) (drop (c * k) iter) acc'
                  (batch_globals k c iter g g) k_pos refl)
          ∙ map_result_chain reported (λ acc'. ok (acc', all_globals c k (suc n) iter g)) acc
              (take (c * k) iter) (take (n * (c * k)) (drop (c * k) iter))
          ∙ ap
              (λ t. extend acc (map_result reported t) >>= λ acc'.
                ok (acc', all_globals c k (suc n) iter g))
              (sym (take_add (c * k) (n * (c * k)) m iter (omega arith))))

  -- Without merging nothing of the children reaches the parent's globals.
  module _ (unmerged : merging ≡ false) where
    batch_globals_unmerged :
        (k j : ℕ) (iter : List A) (at_fork g : G) → batch_globals k j iter at_fork g ≡ g
    unfolding batch_globals joined_globals
    batch_globals_unmerged k zero iter at_fork g = refl
    batch_globals_unmerged k (suc j) iter at_fork g = elim (List-cases (take k iter)) [
      | inl e ↦ rw (e, batch_globals)
      | inr (x, xs, e) ↦
          rw (e, batch_globals, unmerged) (batch_globals_unmerged k j (drop k iter) at_fork g)
    ]

    pub all_globals_unmerged : (c k n : ℕ) (iter : List A) (g : G) → all_globals c k n iter g ≡ g
    unfolding all_globals
    all_globals_unmerged c k zero iter g = refl
    all_globals_unmerged c k (suc n) iter g =
        all_globals_unmerged c k n (drop (c * k) iter) (batch_globals k c iter g g)
        ∙ batch_globals_unmerged k c iter g g
