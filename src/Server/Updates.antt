-- ===== src/Server/Updates.antt =====
-- The instances that have ended, released: TranInstMgr::Update.
use mathlib.Core.Path.{subst}
use coroutine_transaction.Base.{
  All-map, ℕ, ◌≡◌, ◌≢◌, ◌∙◌, refl, sym, inl, inr, Option, none, some, List, [], ◌∷◌, ℕ-cases,
  Option-cases, ==-ne, All,
}
use coroutine_transaction.Coroutine.{is_in_coroutine, destroy_work_routine}
use coroutine_transaction.Coroutine.Made.{destroy_work_routine-Valid, destroy_work_routine-others}
use coroutine_transaction.Transaction.{Instance, Transaction, handle_result}
use coroutine_transaction.Server.{Server, set_park}
use coroutine_transaction.Server.Calls.{free_coroutine, tell_result, update_one, update_all, update}
use coroutine_transaction.Server.Idle.{Rest, Idle, Rest-moved}

module _ {U : Type 0} (tran_of : ℕ → Option (Transaction U)) where
  -- No instance of the map waits on the coroutine of `d`.
  abbrev Away : (ℕ → Option Instance) → Instance → Type 0
  Away m d = (j : ℕ) (b : Instance) → m j ≡ some b → b.coroutine_id ≢ d.coroutine_id

  -- The list of the ended ones, set aside.
  abbrev listless : Server U → Server U
  listless s = record s { destroy_list = [] }

  Rest-listless :
      (c c' : ℕ) (s : Server U)
      → ((j : ℕ) (b : Instance) → s.trans_map j ≡ some b → b.coroutine_id ≢ c')
      → Rest tran_of c (listless s)
      → Rest tran_of c' (listless s)
  Rest-listless c c' s away r = record {
    waits = λ j b e. ((r.waits j b e).0, away j b e);
    apart = r.apart;
    ended = r.ended;
  }

  nobody-zero :
      (s : Server U)
      → Idle tran_of s
      → (j : ℕ) (b : Instance) → s.trans_map j ≡ some b
      → b.coroutine_id ≢ 0
  nobody-zero s h j b e = (h.rest.waits j b e).1

  -- One coroutine destroyed that no instance of the map waits on.
  destroyed-Idle :
      (s : Server U) (c : ℕ)
      → c ≢ 0
      → ((j : ℕ) (b : Instance) → s.trans_map j ≡ some b → b.coroutine_id ≢ c)
      → Idle tran_of (listless s)
      → Idle tran_of (
          listless
            (set_park c none (record s { scheduler = (destroy_work_routine c s.scheduler).0 })))
  destroyed-Idle s c n away h =
      let t : Server U =
        set_park c none (record s { scheduler = (destroy_work_routine c s.scheduler).0 }) in
      let (same, others) = destroy_work_routine-others c s.scheduler in
      record {
        valid = destroy_work_routine-Valid c s.scheduler h.valid (λ q. n (sym q ∙ h.main));
        main = same ∙ h.main;
        rest = Rest-listless c 0 t (nobody-zero (listless s) h) (
            Rest-moved tran_of c (listless s) (listless t)
              (record {
                same_map = λ j. refl;
                same_coroutines = others;
                same_parks = λ k m. rw (==-ne k c m) refl;
                same_list = refl;
              })
              (Rest-listless 0 c s away h.rest));
      }

  user-Idle :
      (s : Server U) (user : U)
      → Idle tran_of (listless s)
      → Idle tran_of (listless (record s { user = user }))
  user-Idle s user h = record {
    valid = h.valid;
    main = h.main;
    rest =
        Rest-moved tran_of 0 (listless s) (listless (record s { user = user }))
          (record {
            same_map = λ j. refl;
            same_coroutines = λ k n. refl;
            same_parks = λ k n. refl;
            same_list = refl;
          })
          h.rest;
  }

  free_coroutine-Idle :
      (d : Instance) (s : Server U)
      → Away s.trans_map d
      → Idle tran_of (listless s)
      → Idle tran_of (listless (free_coroutine d.coroutine_id s))
        × ((free_coroutine d.coroutine_id s).trans_map ≡ s.trans_map)
  unfolding free_coroutine
  free_coroutine-Idle d s away h = elim (ℕ-cases d.coroutine_id 0) [
    | inl z ↦ rw (z, free_coroutine) (h, refl)
    | inr n ↦
        rw (==-ne d.coroutine_id 0 n, free_coroutine)
          (destroyed-Idle s d.coroutine_id n away h, refl)
  ]

  tell_result-Idle :
      (d : Instance) (s : Server U)
      → Idle tran_of (listless s)
      → Idle tran_of (listless (tell_result tran_of d s))
        × ((tell_result tran_of d s).trans_map ≡ s.trans_map)
  unfolding tell_result
  tell_result-Idle d s h = elim (Option-cases (tran_of d.type)) [
    | inl e ↦ rw (e, tell_result) (h, refl)
    | inr (tr, e) ↦
        let w =
          handle_result tr (is_in_coroutine s.scheduler)
            (record { inst = record d { coroutine_id = 0 }; user = s.user }) in
        rw (e, tell_result) (user-Idle s w.user h, refl)
  ]

  update_one-Idle :
      (d : Instance) (s : Server U)
      → Away s.trans_map d
      → Idle tran_of (listless s)
      → Idle tran_of (listless (update_one tran_of d s))
        × ((update_one tran_of d s).trans_map ≡ s.trans_map)
  unfolding update_one
  update_one-Idle d s away h =
      let (h', e) = free_coroutine-Idle d s away h in
      let (h'', e') = tell_result-Idle d (free_coroutine d.coroutine_id s) h' in (h'', e' ∙ e)

  update_all-Idle :
      (ds : List Instance) (s : Server U)
      → All (Away s.trans_map) ds
      → Idle tran_of (listless s)
      → Idle tran_of (listless (update_all tran_of ds s))
  unfolding update_all
  update_all-Idle [] s away h = h
  update_all-Idle (d ∷ ds) s (a, away) h =
      let (h', e) = update_one-Idle d s a h in
      update_all-Idle ds (update_one tran_of d s) (subst (λ m. All (Away m) ds) (sym e) away) h'

  pub update-Idle : (s : Server U) → Idle tran_of s → Idle tran_of (update tran_of s)
  unfolding update
  update-Idle s h =
      update_all-Idle s.destroy_list s (All-map _ _ s.destroy_list (λ d x. x.2) h.rest.ended)
        (record {
          valid = h.valid;
          main = h.main;
          rest = record {
            waits = λ j b e.
                (let (w, n) = h.rest.waits j b e in
                  (
                    record {
                      same_id = w.same_id;
                      staying = w.staying;
                      stack = w.stack;
                      park = w.park;
                    },
                    n,
                  ));
            apart = h.rest.apart;
            ended = tt;
          };
        })
