-- ===== src/Ingestion/Worker/Bookkeeping.antt =====
-- What a run leaves behind, whether it fails or not.
use asber.Base.{
  Bool, List, Option, Text, [], false, none, refl, some, true, ◌∷◌, ◌≡◌, ap, sym, ℕ, ◌∙◌, arith,
}
use asber.Ingestion.Worker.{
  Action, Context, checkpoint, fail, move, sync, tally, write, save_progress, Store, run_worker,
  close_run, finish, open_context, settle,
}
use asber.Ingestion.Http.{store}

abbrev pub is_some : Option Text → Bool
is_some none = false
is_some (some e) = true

module _ {D S : Type 0} where
  abbrev before : Action D S → Option (List (Action D S)) → Option (List (Action D S))
  before a none = none
  before a (some as') = some (a ∷ as')

  abbrev or_nil : Option (List (Action D S)) → List (Action D S)
  or_nil none = []
  or_nil (some as') = as'

  abbrev up_to_checkpoint : List (Action D S) → Option (List (Action D S))
  up_to_checkpoint [] = none
  up_to_checkpoint (fail error ∷ rest) = none
  up_to_checkpoint (checkpoint ∷ rest) = some (checkpoint ∷ or_nil (up_to_checkpoint rest))
  up_to_checkpoint (write f ∷ rest) = before (write f) (up_to_checkpoint rest)
  up_to_checkpoint (move f ∷ rest) = before (move f) (up_to_checkpoint rest)
  up_to_checkpoint (tally f ∷ rest) = before (tally f) (up_to_checkpoint rest)

  -- The actions up to the last checkpoint that comes before a failure, that one included.
  abbrev pub checkpointed : List (Action D S) → List (Action D S)
  checkpointed actions = or_nil (up_to_checkpoint actions)

  abbrev pub fails : List (Action D S) → Bool
  fails [] = false
  fails (fail error ∷ rest) = true
  fails (checkpoint ∷ rest) = fails rest
  fails (write f ∷ rest) = fails rest
  fails (move f ∷ rest) = fails rest
  fails (tally f ∷ rest) = fails rest

module _ {D S : Type 0} (recompute_many : List Text → D → D) where
  abbrev IsSettled : Context D S × Option Text → Context D S → Type 0
  IsSettled result ctx =
      (result.1 ≡ none)
      × (result.0.saved ≡ ctx.saved)
      × (result.0.session ≡ ctx.saved.rows)
      × (result.0.state ≡ ctx.saved.source.state)
      × (result.0.stats.touched_cves ≡ [])

  abbrev Leaves : Option (List (Action D S)) → List (Action D S) → Context D S → Type 0
  Leaves none actions ctx = (sync recompute_many actions ctx).0.saved ≡ ctx.saved
  Leaves (some p) actions ctx =
      IsSettled (sync recompute_many p ctx) (sync recompute_many actions ctx).0

  step-Leaves :
      (a : Action D S) (rest : List (Action D S)) (ctx ctx' : Context D S)
      → ((as' : List (Action D S))
          → sync recompute_many (a ∷ as') ctx ≡ sync recompute_many as' ctx')
      → ctx'.saved ≡ ctx.saved
      → (o : Option (List (Action D S))) → Leaves o rest ctx'
      → Leaves (before a o) (a ∷ rest) ctx
  step-Leaves a rest ctx ctx' step kept none h = ap (λ r. r.0.saved) (step rest) ∙ h ∙ kept
  step-Leaves a rest ctx ctx' step kept (some p) h = rw (step p, step rest) h

  checkpoint-Leaves :
      (rest : List (Action D S)) (ctx : Context D S) (o : Option (List (Action D S)))
      → Leaves o rest (save_progress recompute_many ctx)
      → Leaves (some (checkpoint ∷ or_nil o)) (checkpoint ∷ rest) ctx
  unfolding sync
  checkpoint-Leaves rest ctx none h =
      (refl, sym h, ap (λ s. s.rows) (sym h), ap (λ s. s.source.state) (sym h), refl)
  checkpoint-Leaves rest ctx (some p) h = h

  sync-Leaves :
      (actions : List (Action D S)) (ctx : Context D S)
      → Leaves (up_to_checkpoint actions) actions ctx
  unfolding sync
  sync-Leaves [] ctx = refl
  sync-Leaves (fail error ∷ rest) ctx = refl
  sync-Leaves (write f ∷ rest) ctx =
      let ctx' : Context D S = record ctx { session = f ctx.session } in
      step-Leaves (write f) rest ctx ctx' (λ as'. refl) refl (up_to_checkpoint rest)
        (sync-Leaves rest ctx')
  sync-Leaves (move f ∷ rest) ctx =
      let ctx' : Context D S = record ctx { state = f ctx.state } in
      step-Leaves (move f) rest ctx ctx' (λ as'. refl) refl (up_to_checkpoint rest)
        (sync-Leaves rest ctx')
  sync-Leaves (tally f ∷ rest) ctx =
      let ctx' : Context D S = record ctx { stats = f ctx.stats } in
      step-Leaves (tally f) rest ctx ctx' (λ as'. refl) refl (up_to_checkpoint rest)
        (sync-Leaves rest ctx')
  sync-Leaves (checkpoint ∷ rest) ctx =
      checkpoint-Leaves rest ctx (up_to_checkpoint rest)
        (sync-Leaves rest (save_progress recompute_many ctx))

  pub sync-fails :
      (actions : List (Action D S)) (ctx : Context D S)
      → is_some (sync recompute_many actions ctx).1 ≡ fails actions
  unfolding sync
  sync-fails [] ctx = refl
  sync-fails (fail error ∷ rest) ctx = refl
  sync-fails (write f ∷ rest) ctx = sync-fails rest (record ctx { session = f ctx.session })
  sync-fails (move f ∷ rest) ctx = sync-fails rest (record ctx { state = f ctx.state })
  sync-fails (tally f ∷ rest) ctx = sync-fails rest (record ctx { stats = f ctx.stats })
  sync-fails (checkpoint ∷ rest) ctx = sync-fails rest (save_progress recompute_many ctx)

  open-Leaves :
      (started : ℕ) (store : Store D S) (actions : List (Action D S))
      (o : Option (List (Action D S)))
      → Leaves o actions (open_context started store)
      → IsSettled
          (sync recompute_many (or_nil o) (open_context started store))
          (sync recompute_many actions (open_context started store)).0
  unfolding sync open_context
  open-Leaves started store actions none h =
      (refl, sym h, ap (λ s. s.rows) (sym h), ap (λ s. s.source.state) (sym h), refl)
  open-Leaves started store actions (some p) h = h

  close_failed :
      (started ended : ℕ) (r : Context D S × Option Text)
      → is_some r.1 ≡ true
      → let store = (close_run recompute_many started ended r.1 (finish recompute_many r)).1 in
        (store.rows ≡ r.0.saved.rows) × (store.source.state ≡ r.0.saved.source.state)
  unfolding finish settle
  close_failed started ended (ctx, some e) h = (refl, refl)
  close_failed started ended (ctx, none) h = ground arith

  close_settled :
      (started ended : ℕ) (r : Context D S × Option Text) (ctx : Context D S)
      → IsSettled r ctx
      → let closed = close_run recompute_many started ended r.1 (finish recompute_many r) in
        (closed.1.rows ≡ ctx.saved.rows)
        × (closed.1.source.state ≡ ctx.saved.source.state)
        × (closed.0.error ≡ none)
  unfolding finish settle
  close_settled started ended (c, some e) ctx h = ground (arith, h.0)
  close_settled started ended (c, none) ctx (h, sv, ss, st, touched) = (rw touched ss, st, refl)

  -- A run that fails leaves the rows and the cursors that a run of its checkpointed part alone
  -- leaves, with no error: what it did after its last checkpoint is undone, and no more.
  pub failed_run_keeps_checkpoint :
      (started ended : ℕ) (actions : List (Action D S)) (store : Store D S)
      → fails actions ≡ true
      → let failed = (run_worker recompute_many started ended actions store).1 in
        let kept = run_worker recompute_many started ended (checkpointed actions) store in
        (failed.rows ≡ kept.1.rows)
        × (failed.source.state ≡ kept.1.source.state)
        × (kept.0.error ≡ none)
  unfolding run_worker
  failed_run_keeps_checkpoint started ended actions store f =
      let ctx = open_context started store in
      let settled =
        open-Leaves started store actions (up_to_checkpoint actions) (sync-Leaves actions ctx) in
      let a =
        close_failed started ended (sync recompute_many actions ctx) (sync-fails actions ctx ∙ f) in
      let b =
        close_settled started ended (sync recompute_many (checkpointed actions) ctx)
          (sync recompute_many actions ctx).0 settled in
      (a.0 ∙ sym b.0, a.1 ∙ sym b.1, b.2)
