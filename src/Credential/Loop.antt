-- ===== src/Credential/Loop.antt =====
-- The loop of ReconcileExpiredGrace: with no failure it completes exactly the rotations that are due.
use mathlib.Core.Option
use mathlib.Core.Option.{some-injective, none-ne-some}
use olimpo.Common.{
  ℕ, suc, ◌≡◌, refl, ap, ◌∙◌, inl, inr, Bool, true, false, ◌||◌, Option, none, some, arith, ◌==◌,
  nat_eq, List, [], ◌∷◌, Bool-cases, select, has_key, has_key-select,
}
use olimpo.Errors.{Error, refused, database, entropy, Result, ok, err}
use olimpo.Gorm.{Gorm}
use olimpo.Gorm.Rules.{AtomicOutcome}
use olimpo.Gorm.Statements.{find_rows_cases}
use olimpo.Model.{
  Database, DdnsCredentialRotation, CredentialStatus, RotationStatus, rotations_table,
}
use olimpo.Credential.Base.{to_completed}
use olimpo.Credential.Finish.{
  Reconciled, after_item, reconcile_loop, complete_rotation_tx, reconcile_expired_grace,
}
use olimpo.Credential.Invariant.{HasCredential, rotation_at, IsSound}
use olimpo.Credential.Reconcile.{
  is_due, complete_due, CompletesDue, RevokesDue, KeepsCredentials, ItemDone,
  complete_rotation_tx_Sound, not_due,
}

-- An error that no check of the service decided on.
abbrev pub IsFault : Error → Type 0
IsFault (refused r) = ⊥
IsFault (database e) = Unit
IsFault entropy = Unit

-- A rotation that is not due is as it was.
abbrev pub KeepsOthers : ℕ → Database → Database → Type 0
KeepsOthers now s s' =
    (i : ℕ) (r : DdnsCredentialRotation)
    → rotation_at i s.rotations ≡ some r
    → is_due now r ≡ false
    → rotation_at i s'.rotations ≡ some r

complete_due_twice :
    (now : ℕ) (b c : Bool) (r : DdnsCredentialRotation)
    → complete_due now c (complete_due now b r) ≡ complete_due now (b || c) r
complete_due_twice now true true r = ground arith
complete_due_twice now true false r = refl
complete_due_twice now false c r = refl

CompletesDue-trans :
    (now : ℕ) (f g : ℕ → Bool) (s t u : Database)
    → CompletesDue now f s t
    → CompletesDue now g t u
    → CompletesDue now (λ i. f i || g i) s u
CompletesDue-trans now f g s t u h k i =
    k i ∙ ap (Option.map (complete_due now (g i))) (h i) ∙ go (rotation_at i s.rotations)
  where
    go :
        (o : Option DdnsCredentialRotation)
        → Option.map (complete_due now (g i)) (Option.map (complete_due now (f i)) o)
          ≡ Option.map (complete_due now (f i || g i)) o
    go none = refl
    go (some r) = ap some (complete_due_twice now (f i) (g i) r)

CompletesDue-Keeps :
    (now : ℕ) (f : ℕ → Bool) (s t : Database) → CompletesDue now f s t → KeepsOthers now s t
CompletesDue-Keeps now f s t h i r at off =
    h i ∙ ap (Option.map (complete_due now (f i))) at ∙ ap some (not_due now (f i) r (λ _. off))

RevokesDue-trans :
    (now : ℕ) (f g : ℕ → Bool) (s t u : Database)
    → CompletesDue now f s t
    → RevokesDue now f s t
    → RevokesDue now g t u
    → KeepsCredentials t u
    → RevokesDue now (λ i. f i || g i) s u
RevokesDue-trans now f g s t u moved p q k i r at either due = elim (Bool-cases (f i)) [
  | inl hit ↦ k _ _ _ (λ e. cc) (p i r at hit due)
  | inr miss ↦
      let same : rotation_at i t.rotations ≡ some r =
        moved i ∙ ap (Option.map (complete_due now (f i))) at ∙ rw miss refl in
      q i r same (ground arith) due
]

abbrev LoopDone : ℕ → List DdnsCredentialRotation → Database → Reconciled × Database → Type 0
LoopDone now items s ((n, none), s') =
    IsSound s'
    × CompletesDue now (λ i. has_key (λ x. x.id) i items) s s'
    × RevokesDue now (λ i. has_key (λ x. x.id) i items) s s'
    × KeepsCredentials s s'
LoopDone now items s ((n, some e), s') =
    IsSound s' × IsFault e × KeepsOthers now s s' × KeepsCredentials s s'

nothing_due : (now : ℕ) (s : Database) → CompletesDue now (λ i. false) s s
nothing_due now s i = go (rotation_at i s.rotations)
  where
    go : (o : Option DdnsCredentialRotation) → o ≡ Option.map (complete_due now false) o
    go none = refl
    go (some r) = refl

module _ (now : ℕ) (item : DdnsCredentialRotation) (items : List DdnsCredentialRotation)
    (s t : Database) (first : CompletesDue now (λ i. i == item.id) s t)
    (revoked : RevokesDue now (λ i. i == item.id) s t) (kept : KeepsCredentials s t) where
  LoopDone-cons :
      (o : Reconciled × Database) → LoopDone now items t o → LoopDone now (item ∷ items) s o
  LoopDone-cons ((n, none), u) (v, h, p, k) = (
    v,
    CompletesDue-trans now _ _ s t u first h,
    RevokesDue-trans now _ _ s t u first revoked p k,
    λ i d st ne has. k i d st ne (kept i d st ne has),
  )
  LoopDone-cons ((n, some e), u) (v, f, k, c) = (
    v,
    f,
    (λ i r at off. k i r (CompletesDue-Keeps now _ s t first i r at off) off),
    λ i d st ne has. c i d st ne (kept i d st ne has),
  )

module _ (db : Gorm) (now : ℕ) where
  reconcile_loop_Sound :
      (items : List DdnsCredentialRotation) (n : ℕ) (s : Database)
      → IsSound s
      → LoopDone now items s (reconcile_loop db now items n s)
  unfolding reconcile_loop
  reconcile_loop_Sound [] n s v =
      (v, nothing_due now s, (λ i r at no due. absurd (ground arith)), λ i d st ne has. has)
  reconcile_loop_Sound (item ∷ items) n s v =
      go (db.transaction (complete_rotation_tx db item now) s)
        (complete_rotation_tx_Sound db s v item now).holds
        (λ m t w. reconcile_loop_Sound items m t w)
    where
      go :
          (o : Result Error Bool × Database)
          → AtomicOutcome (ItemDone db s v item now) (λ e. ⊥) s o
          → ((m : ℕ) (t : Database)
              → IsSound t
              → LoopDone now items t (reconcile_loop db now items m t))
          → LoopDone now (item ∷ items) s (after_item (reconcile_loop db now items) n o)
      go (ok true, t) (w, h, p, k) rest =
          LoopDone-cons now item items s t h p k (reconcile_loop db now items (suc n) t)
            (rest (suc n) t w)
      go (ok false, t) (w, h, p, k) rest =
          LoopDone-cons now item items s t h p k (reconcile_loop db now items n t) (rest n t w)
      go (err (refused r), t) h rest = absurd h.0
      go (err (database e), t) h rest =
          (rw h v, tt, rw h (λ i r at _. at), rw h (λ i d st ne has. has))
      go (err entropy, t) h rest = (rw h v, tt, rw h (λ i r at _. at), rw h (λ i d st ne has. has))

-- The rotation is completed at that time, and is the same otherwise.
abbrev pub IsCompleted : ℕ → DdnsCredentialRotation → DdnsCredentialRotation → Type 0
IsCompleted now r r' =
    (r'.status ≡ RotationStatus.completed)
    × (r'.completed_at ≡ some now)
    × (r'.id ≡ r.id)
    × (r'.device_id ≡ r.device_id)
    × (r'.previous_credential_id ≡ r.previous_credential_id)
    × (r'.new_credential_id ≡ r.new_credential_id)

-- Every due rotation is completed, and the credential that it replaced is revoked.
abbrev pub FinishesDue : ℕ → Database → Database → Type 0
FinishesDue now s s' =
    (i : ℕ) (r : DdnsCredentialRotation)
    → rotation_at i s.rotations ≡ some r
    → is_due now r ≡ true
    → (r' : DdnsCredentialRotation) × (rotation_at i s'.rotations ≡ some r')
      × IsCompleted now r r'
      × HasCredential s'.ddns_credentials r.previous_credential_id r.device_id
          CredentialStatus.revoked

-- What a reconciliation makes of a database: with no failure, every due rotation is completed and no
-- other one changes; with a failure, which is never a refusal, the others still do not change.
abbrev pub Reconciles : ℕ → Database → Reconciled × Database → Type 0
Reconciles now s ((n, none), s') =
    IsSound s'
    × FinishesDue now s s'
    × KeepsOthers now s s'
    × ((i : ℕ) → rotation_at i s.rotations ≡ none → rotation_at i s'.rotations ≡ none)
    × KeepsCredentials s s'
Reconciles now s ((n, some e), s') =
    IsSound s' × IsFault e × KeepsOthers now s s' × KeepsCredentials s s'

module _ (db : Gorm) (now : ℕ) (s : Database) (v : IsSound s) where
  LoopDone-Reconciles :
      (o : Reconciled × Database)
      → LoopDone now (select (is_due now) s.rotations) s o
      → Reconciles now s o
  LoopDone-Reconciles ((n, some e), u) h = h
  LoopDone-Reconciles ((n, none), u) (w, h, p, k) = (
    w,
    (λ i r at due.
        let listed : has_key (λ x. x.id) i (select (is_due now) s.rotations) ≡ true =
          has_key-select (λ x. x.id) (is_due now) i s.rotations r at due in
        (
          to_completed now r,
          h i ∙ ap (Option.map (complete_due now _)) at ∙ ap some (rw (listed, due) refl),
          (refl, refl, refl, refl, refl, refl),
          p i r at listed due,
        )),
    CompletesDue-Keeps now _ s u h,
    (λ i e. h i ∙ ap (Option.map (complete_due now _)) e),
    k,
  )

  -- From a sound database, a reconciliation without a failure completes exactly the rotations in grace
  -- whose period is over, at this time, and revokes the credentials that they replaced; it changes no
  -- other rotation, and the status of no credential that is not in grace. One that stops at a failure
  -- stops at one of the database and not at a refusal, and has changed no rotation that is not due and
  -- the status of no credential that is not in grace. The database stays sound in both cases.
  pub reconcile_expired_grace_Sound : Reconciles now s (reconcile_expired_grace db now s)
  unfolding reconcile_expired_grace
  reconcile_expired_grace_Sound = elim (find_rows_cases db rotations_table (is_due now) s) [
    | inl e ↦ rw e (
        LoopDone-Reconciles (reconcile_loop db now (select (is_due now) s.rotations) 0 s)
          (reconcile_loop_Sound db now _ 0 s v))
    | inr e ↦ rw e (v, tt, (λ i r at _. at), λ i d st ne has. has)
  ]
