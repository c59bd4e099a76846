-- ===== src/ProcessPool/Contained.antt =====
-- No process of a pool outlives it.
use mathlib.Core.Bool.{false≢true}
use iis_asgi_handler.Prelude.{
  ℕ, ◌≡◌, refl, sym, subst, ◌∙◌, ◌⊎◌, inl, inr, Bool, Bool-cases, true, false, Option-cases, none,
  some,
}
use iis_asgi_handler.ProcessPool.Monitor.{ScopedHandle}
use iis_asgi_handler.ProcessPool.Lifetime.{Os, launched, launch_process}
use iis_asgi_handler.ProcessPool.Jobs.{CanTerminate, Jobs, Keeps, Documented}

module _ (os : Os) (jobs : Jobs os) (law : Documented os jobs) (ends : CanTerminate os) where
  open jobs use {Alive, Member, Limited}

  abbrev pub NoneAlive : os.World → Type 0
  NoneAlive w = (x : ℕ) → Alive w x → ⊥

  -- Every process that is alive is in the pool's job, which ends it. Without a job none is.
  abbrev pub IsContained : ScopedHandle → os.World → Type 0
  IsContained none w = NoneAlive w
  IsContained (some job) w = Limited w job × ((x : ℕ) → Alive w x → Member w job x)

  pub Keeps-IsContained :
      (job : ScopedHandle) (w w' : os.World)
      → Keeps jobs w w'
      → IsContained job w
      → IsContained job w'
  Keeps-IsContained none w w' k c = λ x a. c x (k.alive x a)
  Keeps-IsContained (some job) w w' k (l, m) =
      (k.limited job l, λ x a. k.member job x (m x (k.alive x a)))

  -- But for the process that was just created.
  abbrev ButOne : ScopedHandle → ℕ → os.World → Type 0
  ButOne none p w = (x : ℕ) → Alive w x → x ≡ p
  ButOne (some job) p w = Limited w job × ((x : ℕ) → Alive w x → Member w job x ⊎ (x ≡ p))

  Keeps-ButOne :
      (job : ScopedHandle) (p : ℕ) (w w' : os.World)
      → Keeps jobs w w'
      → ButOne job p w
      → ButOne job p w'
  Keeps-ButOne none p w w' k c = λ x a. c x (k.alive x a)
  Keeps-ButOne (some job) p w w' k (l, m) = (
    k.limited job l,
    λ x a. elim (m x (k.alive x a)) [ inl i ↦ inl (k.member job x i) | inr e ↦ inr e ],
  )

  terminated-IsContained :
      (job : ScopedHandle) (p : ℕ) (w : os.World)
      → ButOne job p w
      → IsContained job (os.terminate p w).1
  terminated-IsContained none p w c = λ x a.
      law.terminates p w (ends p w)
        (subst (Alive (os.terminate p w).1) (c x ((law.at_terminate p w).alive x a)) a)
  terminated-IsContained (some job) p w (l, m) =
      let k = law.at_terminate p w in
      (
        k.limited job l,
        λ x a. elim (m x (k.alive x a)) [
          | inl i ↦ k.member job x i
          | inr e ↦ absurd (law.terminates p w (ends p w) (subst (Alive (os.terminate p w).1) e a))
        ],
      )

  assigned-IsContained :
      (job : ScopedHandle) (p : ℕ) (w : os.World)
      → ButOne job p w
      → (os.assign_to_job job p w).0 ≡ true
      → IsContained job (os.assign_to_job job p w).1
  assigned-IsContained none p w c e = absurd (false≢true (sym (law.no_job p w) ∙ e))
  assigned-IsContained (some job) p w (l, m) e =
      let k = law.at_assign (some job) p w in
      (
        k.limited job l,
        λ x a. elim (m x (k.alive x a)) [
          | inl i ↦ k.member job x i
          | inr same ↦
              subst (Member (os.assign_to_job (some job) p w).1 job) (sym same)
                (law.assigns job p w e)
        ],
      )

  resumed-IsContained :
      (job : ScopedHandle) (p : ℕ) (w : os.World) (assigned : Bool)
      → (os.assign_to_job job p w).0 ≡ assigned
      → ButOne job p w
      → IsContained job (launched os job (some p) w).1
  unfolding launched
  resumed-IsContained job p w false e b = rw e (
      terminated-IsContained job p _ (
        Keeps-ButOne job p _ _ (law.at_resume p _)
          (Keeps-ButOne job p _ _ (law.at_assign job p w) b)))
  resumed-IsContained job p w true e b =
      elim (Bool-cases (os.resume p (os.assign_to_job job p w).1).0) [
        | inl r ↦
            rw (e, r)
              (Keeps-IsContained job _ _ (law.at_resume p _) (assigned-IsContained job p w b e))
        | inr r ↦
            rw (e, r)
              (terminated-IsContained job p _ (
                Keeps-ButOne job p _ _ (law.at_resume p _)
                  (Keeps-ButOne job p _ _ (law.at_assign job p w) b)))
      ]

  created-ButOne :
      (job : ScopedHandle) (p : ℕ) (w : os.World)
      → (os.create_suspended w).0 ≡ some p
      → IsContained job w
      → ButOne job p (os.create_suspended w).1
  created-ButOne none p w e c =
      λ x a. elim (law.creates w x a) [ inl old ↦ absurd (c x old) | inr new ↦ cc ]
  created-ButOne (some job) p w e (l, m) = (
    law.limited-create w job l,
    λ x a. elim (law.creates w x a) [
      | inl old ↦ inl (law.member-create w job x (m x old))
      | inr new ↦ inr (cc)
    ],
  )

  failed-IsContained :
      (job : ScopedHandle) (w : os.World)
      → (os.create_suspended w).0 ≡ none
      → IsContained job w
      → IsContained job (os.create_suspended w).1
  failed-IsContained none w e c =
      λ x a. elim (law.creates w x a) [ inl old ↦ c x old | inr new ↦ absurd (cc) ]
  failed-IsContained (some job) w e (l, m) = (
    law.limited-create w job l,
    λ x a. elim (law.creates w x a) [
      | inl old ↦ law.member-create w job x (m x old)
      | inr new ↦ absurd (cc)
    ],
  )

  pub launch-IsContained :
      (job : ScopedHandle) (w : os.World)
      → IsContained job w
      → IsContained job (launch_process os job w).1
  unfolding launch_process launched
  launch-IsContained job w c = elim (Option-cases (os.create_suspended w).0) [
    | inl e ↦ rw e (failed-IsContained job w e c)
    | inr (p, e) ↦
        rw e
          (resumed-IsContained job p (os.create_suspended w).1 _ refl (created-ButOne job p w e c))
  ]
