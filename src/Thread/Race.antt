-- ===== src/Thread/Race.antt =====
-- The flag `alive` of src/thread.cpp, which the parent sets at the end of `start` and the child clears at the
-- end of `run`, in both orders.
use snakefish.Prelude.{
  if◌then◌else◌, Exc, Result, ◌>>=◌, pos, ok, ℕ, ◌≡◌, refl, ap, ◌∙◌, Bool, true, false, Option,
  some, List, [], ◌∷◌, ==_self, arith,
}
use snakefish.Thread.{
  Thread, Outcome, returned, raised, init, forked, mark_alive, sent, run, join, is_alive,
  get_exit_status, get_result,
}
use snakefish.Thread.Process.{Waited, exited}
use snakefish.Thread.Lifecycle.{share, join_and_get, IsPlain, got}

-- A thread that has been forked, in the parent and in the child, and whether each has come to its store.
pub record System (Obj : Type 0) : Type 0 where
  pub parent : Thread Obj
  pub child : Thread Obj
  pub marked : Bool
  pub ended : Bool

-- Both processes, with what they share.
abbrev pub state : {Obj : Type 0} → Bool → ℕ → Bool → Bool → List Obj → Bool → System Obj
state merging pid marked ended objects alive = record {
  parent = record (forked pid (init merging)) { channel = objects; alive = alive };
  child = record (init merging) { started = true; channel = objects; alive = alive };
  marked = marked;
  ended = ended;
}

module _ {Obj G : Type 0} (as_exception : Obj → Option Exc) (join_lines : Obj → Obj)
    (extract : G → Obj) (merge : G → Obj → G) where
  joined_over :
      (exc_received merging : Bool) (pid : ℕ) (out : Outcome Obj) (gc g : G) (flag : Bool)
      → IsPlain as_exception join_lines extract merge out
      → join_and_get as_exception join_lines extract merge exc_received pid
          (exited 0)
          g
          (state merging pid true true
            (sent as_exception join_lines extract merge merging out gc)
            flag).parent
        ≡ (got as_exception join_lines extract merge exc_received out >>= λ r.
            ok (r, pos 0, (if merging then merge g (extract gc) else g)))
  unfolding join init get_result get_exit_status
  joined_over exc_received merging pid (returned v) gc g flag plain = ground arith
  joined_over true merging pid (raised v type lines) gc g flag plain = ground arith
  joined_over false merging pid (raised v type lines) gc g flag plain = ground arith

module _ {Obj G : Type 0} (as_exception : Obj → Option Exc) (join_lines : Obj → Obj)
    (extract : G → Obj) (merge : G → Obj → G) where
  abbrev joined_parent : Bool → ℕ → Obj → List Obj → Bool → Thread Obj
  joined_parent merging pid v rest flag = record (state merging pid true true rest flag).parent {
    joined = true;
    ret_val = some v;
  }

  -- A join leaves the flag alone.
  join-flag :
      (merging : Bool) (pid : ℕ) (out : Outcome Obj) (gc g : G) (flag : Bool)
      → (t : Thread Obj) × (g' : G) × (join as_exception join_lines extract merge
            (Waited.ended pid (exited 0))
            (state merging pid true true
              (sent as_exception join_lines extract merge merging out gc)
              flag).parent
            g
          ≡ ok (t, g'))
        × (t.alive ≡ flag)
  unfolding join init
  join-flag true pid (returned v) gc g flag =
      (joined_parent true pid v [] flag, merge g (extract gc), rw (==_self pid) refl, refl)
  join-flag false pid (returned v) gc g flag =
      (joined_parent false pid v [] flag, g, rw (==_self pid) refl, refl)
  join-flag true pid (raised v type lines) gc g flag = (
    joined_parent true pid v (type ∷ lines ∷ []) flag,
    merge g (extract gc),
    rw (==_self pid) refl,
    refl,
  )
  join-flag false pid (raised v type lines) gc g flag =
      (joined_parent false pid v (type ∷ lines ∷ []) flag, g, rw (==_self pid) refl, refl)

module _ {Obj G : Type 0} (as_exception : Obj → Option Exc) (join_lines : Obj → Obj)
    (extract : G → Obj) (merge : G → Obj → G) (out : Outcome Obj) (gc : G) where
  -- The parent's store, which both see.
  abbrev pub mark : System Obj → System Obj
  mark s = record s { parent = mark_alive s.parent; child = mark_alive s.child; marked = true }

  -- The child's `run`, with its store.
  abbrev pub finish : System Obj → Result (System Obj)
  finish s = run as_exception join_lines extract merge out gc s.child >>= λ c.
      ok (record s { parent = share s.parent c; child = c; ended = true })

  pub data Step (s t : System Obj) : Type 0 where
    marks : s.marked ≡ false → t ≡ mark s → Step s t
    ends : s.ended ≡ false → finish s ≡ ok t → Step s t

  pub data Reach (s : System Obj) : System Obj → Type 0 where
    here : Reach s s
    later : {t u : System Obj} → Reach s t → Step t u → Reach s u

  module _ (merging : Bool) (pid : ℕ) where
    -- The states behind `fork()`. Once both stores are done, the flag is what the second of them wrote.
    data Phase (s : System Obj) : Type 0 where
      fresh : s ≡ state merging pid false false [] false → Phase s
      running : s ≡ state merging pid true false [] true → Phase s
      quick :
          s
            ≡ state merging pid false true
                (sent as_exception join_lines extract merge merging out gc)
                false
          → Phase s
      over :
          (flag : Bool)
          → s
            ≡ state merging pid true true
                (sent as_exception join_lines extract merge merging out gc)
                flag
          → Phase s

    Step-Phase : {s t : System Obj} → Step s t → Phase s → Phase t
    unfolding run init
    Step-Phase (marks h e) (fresh eq) = running (e ∙ ap mark eq)
    Step-Phase (marks h e) (running eq) = ground arith
    Step-Phase (marks h e) (quick eq) = over true (e ∙ ap mark eq)
    Step-Phase (marks h e) (over flag eq) = ground arith
    Step-Phase (ends h e) (fresh eq) = quick (ground arith)
    Step-Phase (ends h e) (running eq) = over false (ground arith)
    Step-Phase (ends h e) (quick eq) = ground arith
    Step-Phase (ends h e) (over flag eq) = ground arith

    Reach-Phase : (s : System Obj) → Reach (state merging pid false false [] false) s → Phase s
    Reach-Phase s here = fresh refl
    Reach-Phase s (later {t = t} r st) = Step-Phase st (Reach-Phase t r)

    -- In either order of the two stores: between `start` and the end of the child `is_alive` answers true,
    -- and once the child has ended and `start` returned, the parent's join, exit status and result are
    -- those of the child's run; but an exception of it is raised again only if the process has received none
    -- of a thread before, and else `get_result` is `unspecified`.
    pub Reach-joined :
        IsPlain as_exception join_lines extract merge out
        → (exc_received : Bool) (g : G) (s : System Obj)
        → Reach (state merging pid false false [] false) s
        → s.marked ≡ true
        → (s.ended ≡ false → is_alive s.parent ≡ true)
          × (s.ended ≡ true
              → join_and_get as_exception join_lines extract merge exc_received pid
                  (exited 0)
                  g
                  s.parent
                ≡ (got as_exception join_lines extract merge exc_received out >>= λ r.
                    ok (r, pos 0, (if merging then merge g (extract gc) else g))))
    unfolding is_alive
    Reach-joined plain exc_received g s r m = elim (Reach-Phase s r) [
      | fresh eq ↦ (λ h. ground arith, λ h. ground arith)
      | running eq ↦ (λ h. ap (λ u. u.parent.alive) eq, λ h. ground arith)
      | quick eq ↦ (λ h. ground arith, λ h. ground arith)
      | over flag eq ↦ (
        λ h. ground arith,
        λ h.
            ap
              (λ u.
                join_and_get as_exception join_lines extract merge exc_received pid (exited 0) g
                  u.parent)
              eq
            ∙ joined_over as_exception join_lines extract merge exc_received merging pid out gc g
                flag plain,
      )
    ]

    -- A thread whose child has ended and that has been joined may be alive for ever: so it is when the
    -- child is faster than the last step of `start` in the parent.
    pub alive_after_join :
        (g : G)
        → (s : System Obj) × (t : Thread Obj) × (g' : G) × Reach
            (state merging pid false false [] false)
            s
          × (s.marked ≡ true)
          × (s.ended ≡ true)
          × (join as_exception join_lines extract merge (Waited.ended pid (exited 0)) s.parent g
              ≡ ok (t, g'))
          × (is_alive t ≡ true)
    unfolding run init is_alive
    alive_after_join g =
        let (t, g', e, same) =
          join-flag as_exception join_lines extract merge merging pid out gc g true in
        (
          state merging pid true true (sent as_exception join_lines extract merge merging out gc)
              true,
          t,
          g',
          later
              {t = state merging pid false true
                (sent as_exception join_lines extract merge merging out gc) false}
              (later here (ends refl refl)) (marks refl refl),
          refl,
          refl,
          e,
          same,
        )
