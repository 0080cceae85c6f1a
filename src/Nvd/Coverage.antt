-- ===== src/Nvd/Coverage.antt =====
-- The windows leave no gap, and the pages no item.
use mathlib.Core.Path.{subst}
use mathlib.Core.List.{append-nil, append_assoc}
use asber.Nvd.{page, ended, or_page_size, Stop, max_window, take_windows, first_cursor, incremental}
use asber.Base.{
  Bool-cases, List, Option, Text, [], ap, arith, inl, inr, is_empty, leb, length, refl, some, suc,
  sym, take, true, zero, ℕ, ◌*◌, ◌++◌, ◌+◌, ◌-◌, ◌<◌, ◌||◌, ◌∙◌, ◌∷◌, ◌≡◌, ◌≤◌, Bool, false,
  if◌then◌else◌, ltb, min,
}
use asber.Nvd.{take_item, take_pages, Catalogue, Reply, take_items, Ctx}
use asber.Ingestion.Worker.{save_progress}
use asber.Correlation.Nvd.{NvdEntry}

-- Windows that begin at `cursor`, each where the last one ended, and end at `now`; none is empty
-- or longer than NVD allows.
abbrev pub Tiles : ℕ → ℕ → List (ℕ × ℕ) → Type 0
Tiles cursor now [] = now ≤ cursor
Tiles cursor now ((a, b) ∷ ws) =
    (a ≡ cursor) × (a < b) × (b ≤ a + 119 * 86400) × (b ≤ now) × Tiles b now ws

module _ {A : Type 0} where
  abbrev pub skip : ℕ → List A → List A
  skip zero xs = xs
  skip (suc n) [] = []
  skip (suc n) (x ∷ xs) = skip n xs

  -- A server with these items, which sends `k` of them to a page.
  abbrev pub serve_pages : List A → ℕ → ℕ → Reply A
  serve_pages xs k start_index = page (record {
    vulnerabilities = take k (skip start_index xs);
    total_results = length xs;
    results_per_page = k;
  })

  length-skip : (n : ℕ) (xs : List A) → length (skip n xs) ≡ length xs - n
  length-skip zero xs = omega arith
  length-skip (suc n) [] = omega arith
  length-skip (suc n) (x ∷ xs) = omega (arith, length-skip n xs)

  take_whole : (k : ℕ) (xs : List A) → length xs ≤ k → take k xs ≡ xs
  take_whole zero [] h = refl
  take_whole zero (x ∷ xs) h = absurd (omega arith)
  take_whole (suc k) [] h = refl
  take_whole (suc k) (x ∷ xs) h = ap (λ l. x ∷ l) (take_whole k xs (omega arith))

  take-skip : (k : ℕ) (xs : List A) → take k xs ++ skip k xs ≡ xs
  take-skip zero xs = refl
  take-skip (suc k) [] = refl
  take-skip (suc k) (x ∷ xs) = ap (λ l. x ∷ l) (take-skip k xs)

  skip_nil : (n : ℕ) → skip n [] ≡ []
  skip_nil zero = refl
  skip_nil (suc n) = refl

  skip-skip : (m k : ℕ) (xs : List A) → skip k (skip m xs) ≡ skip (m + k) xs
  skip-skip zero k xs = let e : 0 + k ≡ k = omega arith in rw e refl
  skip-skip (suc m) k [] = skip_nil k ∙ sym (skip_nil (suc m + k))
  skip-skip (suc m) k (x ∷ xs) =
      let e : suc m + k ≡ suc (m + k) = omega arith in rw e (skip-skip m k xs)

  -- The last page, which holds all that is left.
  last_page :
      (xs : List A) (k start : ℕ)
      → 0 < k
      → leb (length xs) (start + k) || is_empty (take k (skip start xs)) ≡ true
      → take k (skip start xs) ≡ skip start xs
  last_page xs k start p h = elim (Bool-cases (leb (length xs) (start + k))) [
    | inl e ↦ take_whole k (skip start xs) (rw (length-skip start xs) (ground arith))
    | inr e ↦ go k (skip start xs) p (rw e at h)
  ]
    where
      go : (k : ℕ) (ys : List A) → 0 < k → is_empty (take k ys) ≡ true → take k ys ≡ ys
      go zero ys p h = absurd (omega arith)
      go (suc k) [] p h = refl
      go (suc k) (y ∷ ys) p h = ground arith

module _ {A : Type 0} (recompute_many : List Text → Catalogue A → Catalogue A)
    (parse_nvd_cve : A → Option NvdEntry) (now track_after : ℕ) where
  -- From one context to another by these items, each applied once, in this order; what is done may
  -- be saved, and the cursor moved, between any two of them.
  pub data Applied (start : Ctx A) : List A → Ctx A → Type 0 where
    nothing : Applied start [] start
    item :
        {xs : List A} {ctx : Ctx A} (x : A)
        → Applied start xs ctx
        → Applied start (xs ++ x ∷ []) (take_item parse_nvd_cve now track_after x ctx)
    saved :
        {xs : List A} {ctx : Ctx A}
        → Applied start xs ctx
        → Applied start xs (save_progress recompute_many ctx)
    moved :
        {xs : List A} {ctx : Ctx A} (cursor : ℕ)
        → Applied start xs ctx
        → Applied start xs (record ctx { state = some cursor })

  Applied-items :
      {start : Ctx A} (xs : List A) (ys : List A) (ctx : Ctx A)
      → Applied start ys ctx
      → Applied start (ys ++ xs) (take_items parse_nvd_cve now track_after xs ctx)
  Applied-items {start} [] ys ctx h = subst (λ l. Applied start l ctx) (sym (append-nil ys)) h
  Applied-items {start} (x ∷ xs) ys ctx h =
      subst (λ l. Applied start l (take_items parse_nvd_cve now track_after (x ∷ xs) ctx))
        (append_assoc ys (x ∷ []) xs)
        (Applied-items xs (ys ++ x ∷ []) (take_item parse_nvd_cve now track_after x ctx) (item x h))

  -- The pages of a window, from a server that has its items.
  take_pages-Applied :
      (xs : List A) (k fuel index : ℕ) (start ctx : Ctx A) (ys : List A)
      → 0 < k
      → index ≤ length xs
      → length xs < index + fuel
      → Applied start ys ctx
      → (end : Ctx A) × (take_pages recompute_many parse_nvd_cve now track_after
            (serve_pages xs k)
            fuel
            index
            ctx
          ≡ (end, ended))
        × Applied start (ys ++ skip index xs) end
  unfolding take_pages
  take_pages-Applied xs k zero index start ctx ys p q h done = absurd (omega arith)
  take_pages-Applied xs k (suc fuel) index start ctx ys p q h done =
      let z : or_page_size k ≡ k = ground arith in
      let ps = take k (skip index xs) in
      let taken = save_progress recompute_many (take_items parse_nvd_cve now track_after ps ctx) in
      let applied = saved (Applied-items ps ys ctx done) in
      let more : ℕ → Ctx A → Ctx A × Stop =
        take_pages recompute_many parse_nvd_cve now track_after (serve_pages xs k) fuel in
      let last : ℕ → Bool = λ n. leb (length xs) (index + n) || is_empty ps in
      elim (Bool-cases (last (or_page_size k))) [
        | inl e ↦ (
          taken,
          rw e refl,
          subst (λ l. Applied start (ys ++ l) taken) (last_page xs k index p (ap last (sym z) ∙ e))
              applied,
        )
        | inr e ↦
            let f : last k ≡ false = ap last (sym z) ∙ e in
            let (end, r, a) =
              take_pages-Applied xs k fuel (index + k) start taken (ys ++ ps) p (ground arith)
                (omega arith) applied in
            let joined : (ys ++ ps) ++ skip (index + k) xs ≡ ys ++ skip index xs =
              append_assoc ys ps (skip (index + k) xs)
              ∙ ap (λ l. ys ++ l)
                  (ap (λ l. ps ++ l) (sym (skip-skip index k xs)) ∙ take-skip k (skip index xs)) in
            let first : take_pages recompute_many parse_nvd_cve now track_after (serve_pages xs k)
                  (suc fuel) index ctx
                ≡ more (index + or_page_size k) taken =
              rw e refl in
            (
              end,
              first ∙ ap (λ n. more (index + n) taken) z ∙ r,
              subst (λ l. Applied start l end) joined a,
            )
      ]

  -- The items of the windows, one window after the other.
  abbrev pub window_items : (ℕ → ℕ → List A) → List (ℕ × ℕ) → List A
  window_items served [] = []
  window_items served ((a, b) ∷ ws) = served a b ++ window_items served ws

  abbrev pub new_cursor : ℕ → Option ℕ → Option ℕ
  new_cursor cursor old = if ltb cursor now then some now else old

  new_cursor_end : (c : ℕ) → c ≤ now → new_cursor c (some c) ≡ some now
  new_cursor_end c h = elim (Bool-cases (ltb c now)) [
    | inl e ↦ rw e refl
    | inr e ↦ rw e (ap (λ n. some n) (ground arith))
  ]

  -- What the loop over the windows comes to, from a server that has the items of each window.
  abbrev pub Covers : (ℕ → ℕ → List A) → ℕ → Ctx A → List A → Ctx A → Ctx A × Stop → Type 0
  Covers served cursor start ys ctx result =
      (ws : List (ℕ × ℕ)) × (end : Ctx A) × Tiles cursor now ws
      × (result ≡ (end, ended))
      × Applied start (ys ++ window_items served ws) end
      × (end.saved.source.state ≡ new_cursor cursor ctx.saved.source.state)

  take_windows-Covers :
      (served : ℕ → ℕ → List A) (k page_fuel fuel cursor : ℕ) (start : Ctx A) (ys : List A)
      (ctx : Ctx A)
      → 0 < k
      → ((a b : ℕ) → length (served a b) < page_fuel)
      → now ≤ cursor + fuel
      → Applied start ys ctx
      → Covers served cursor start ys ctx (
          take_windows recompute_many parse_nvd_cve now track_after
            (λ a b. serve_pages (served a b) k)
            page_fuel
            fuel
            cursor
            ctx)
  unfolding take_windows save_progress
  take_windows-Covers served k page_fuel zero cursor start ys ctx p f h done =
      let e : ltb cursor now ≡ false = ground arith in
      (
        [],
        ctx,
        omega arith,
        rw e refl,
        subst (λ l. Applied start l ctx) (sym (append-nil ys)) done,
        rw e refl,
      )
  take_windows-Covers served k page_fuel (suc fuel) cursor start ys ctx p f h done =
      elim (Bool-cases (ltb cursor now)) [
        | inl e ↦
            let until = min now (cursor + max_window) in
            let (mid, r, a) =
              take_pages-Applied (served cursor until) k page_fuel 0 start ctx ys p (omega arith)
                (let g = f cursor until in omega (arith, g)) done in
            let next = save_progress recompute_many (record mid { state = some until }) in
            let (ws, end, tiles, q, b, state) =
              take_windows-Covers served k page_fuel fuel until start (ys ++ served cursor until)
                next p f (ground arith) (saved (moved until a)) in
            (
              (cursor, until) ∷ ws,
              end,
              (refl, ground arith, omega arith, omega arith, tiles),
              rw (e, r) q,
              subst (λ l. Applied start l end)
                  (append_assoc ys (served cursor until) (window_items served ws)) b,
              rw e (state ∙ new_cursor_end until (omega arith)),
            )
        | inr e ↦ (
          [],
          ctx,
          ground arith,
          rw e refl,
          subst (λ l. Applied start l ctx) (sym (append-nil ys)) done,
          rw e refl,
        )
      ]

-- From a server that has the items of every time window and sends them in pages of any size but 0,
-- the incremental sync ends without an error, with as much fuel for the windows as there are
-- seconds from the cursor to now, and more for the pages than any window has items. Its windows
-- cover the time from the cursor to now without a gap or an overlap, none longer than NVD allows.
-- It applies every item of them once, in order, and what it has saved at the end has now as its
-- cursor, or the old one if there was no time to cover.
pub incremental-Covers :
    {A : Type 0} (recompute_many : List Text → Catalogue A → Catalogue A)
    (parse_nvd_cve : A → Option NvdEntry) (served : ℕ → ℕ → List A)
    (k page_fuel now initial_days track_days : ℕ) (ctx : Ctx A)
    → 0 < k
    → ((a b : ℕ) → length (served a b) < page_fuel)
    → Covers recompute_many parse_nvd_cve now
        (now - track_days * 86400)
        served
        (first_cursor now initial_days ctx.state)
        ctx
        []
        ctx
        (incremental recompute_many parse_nvd_cve
          (λ a b. serve_pages (served a b) k)
          page_fuel
          now
          initial_days
          track_days
          ctx)
unfolding incremental
incremental-Covers recompute_many parse_nvd_cve served k page_fuel now initial_days track_days ctx p
      f =
    let cursor = first_cursor now initial_days ctx.state in
    take_windows-Covers recompute_many parse_nvd_cve now (now - track_days * 86400) served k
      page_fuel (now - cursor) cursor ctx [] ctx p f (omega arith) nothing
