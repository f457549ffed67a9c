-- ===== src/Api/Window.antt =====
-- The rate limit against its meaning: a request is admitted exactly while fewer than the allowed number
-- of admitted requests are less than a minute old.
use na_sso.Prelude.{
  ℕ, ◌+◌, ◌*◌, ◌≤◌, ◌<◌, ◌≡◌, refl, sym, ◌∙◌, ap, Bool, true, false, List, [], ◌∷◌, ◌++◌, length,
  filter, ltb, All, All-map, All-append, Bool-cases, inl, inr, arith, if◌then◌else◌,
}
use na_sso.Api.Rate.{Verdict, admitted, limited, drop_old, decided, rate_limit}

abbrev pub is_admitted : Verdict → Bool
is_admitted (admitted n) = true
is_admitted (limited n) = false

-- The times ascend, from the given one on.
abbrev pub IsOrdered : ℕ → List ℕ → Type 0
IsOrdered from [] = Unit
IsOrdered from (t ∷ rest) = (from ≤ t) × IsOrdered t rest

module _ (per_second requests_per_minute : ℕ) where
  -- The answers to requests at successive times.
  unfoldable pub answers : List ℕ → List ℕ → List Bool
  answers [] window = []
  answers (now ∷ rest) window =
      let (verdict, window') = rate_limit per_second requests_per_minute now window in
      is_admitted verdict ∷ answers rest window'

  abbrev pub is_recent : ℕ → ℕ → Bool
  is_recent now t = ltb now (t + 60 * per_second)

  -- The same from the times of all admitted requests.
  unfoldable pub meant : List ℕ → List ℕ → List Bool
  meant [] log = []
  meant (now ∷ rest) log =
      let fine = ltb (length (filter (is_recent now) log)) requests_per_minute in
      fine ∷ meant rest (if fine then log ++ now ∷ [] else log)

  recent_later :
      (now : ℕ) (log : List ℕ) (from : ℕ)
      → IsOrdered from log
      → is_recent now from ≡ true
      → filter (is_recent now) log ≡ log
  recent_later now [] from o r = refl
  recent_later now (t ∷ rest) from (le, o) r = ground (arith, recent_later now rest t)

  drop_old-filter :
      (now : ℕ) (log : List ℕ) (from : ℕ)
      → IsOrdered from log
      → drop_old per_second requests_per_minute now log ≡ filter (is_recent now) log
  unfolding drop_old
  drop_old-filter now [] from o = refl
  drop_old-filter now (t ∷ rest) from (le, o) =
      ground (arith, drop_old-filter now rest t o, recent_later now rest t o)

  filter-filter :
      (now before : ℕ) (log : List ℕ)
      → before ≤ now
      → filter (is_recent now) (filter (is_recent before) log) ≡ filter (is_recent now) log
  filter-filter now before [] le = refl
  filter-filter now before (t ∷ rest) le = ground (arith, filter-filter now before rest le)

  filter-append :
      (now : ℕ) (log : List ℕ)
      → 0 < per_second
      → filter (is_recent now) (log ++ now ∷ []) ≡ filter (is_recent now) log ++ now ∷ []
  filter-append now [] p = ground arith
  filter-append now (t ∷ rest) p = ground (arith, filter-append now rest p)

  filter-IsOrdered :
      (p : ℕ → Bool) (log : List ℕ) (from from' : ℕ)
      → from' ≤ from
      → IsOrdered from log
      → IsOrdered from' (filter p log)
  filter-IsOrdered p [] from from' le o = tt
  filter-IsOrdered p (t ∷ rest) from from' le (h, o) = ground (
    arith,
    filter-IsOrdered p rest t t (omega arith) o,
    filter-IsOrdered p rest t from' (omega arith) o,
  )

  append-IsOrdered :
      (log : List ℕ) (from now : ℕ)
      → from ≤ now
      → IsOrdered from log
      → All (λ t. t ≤ now) log
      → IsOrdered from (log ++ now ∷ [])
  append-IsOrdered [] from now le o a = (le, tt)
  append-IsOrdered (t ∷ rest) from now le (h, o) (a, later) =
      (h, append-IsOrdered rest t now a o later)

  -- The answer and the window, by whether there is room.
  decided-room :
      (now : ℕ) (window : List ℕ)
      → ltb (length window) requests_per_minute ≡ true
      → let (verdict, window') = decided per_second requests_per_minute now window in
        (is_admitted verdict ≡ true) × (window' ≡ window ++ now ∷ [])
  decided-room now window h = ground arith

  decided-full :
      (now : ℕ) (window : List ℕ)
      → ltb (length window) requests_per_minute ≡ false
      → let (verdict, window') = decided per_second requests_per_minute now window in
        (is_admitted verdict ≡ false) × (window' ≡ window)
  decided-full now window h = ground arith

  -- Where the clock ticks and does not run back, the answers to the requests of one identity are those
  -- that the admitted requests call for: each request is admitted exactly if fewer than the allowed
  -- number of the earlier ones were admitted in the minute before it. The window that a run starts
  -- from holds the recent ones of the earlier admitted requests.
  pub answers-meant :
      (times log : List ℕ) (before : ℕ)
      → 0 < per_second
      → IsOrdered 0 log
      → All (λ t. t ≤ before) log
      → IsOrdered before times
      → answers times (filter (is_recent before) log) ≡ meant times log
  unfolding answers meant rate_limit
  answers-meant [] log before tick o past later = refl
  answers-meant (now ∷ rest) log before tick o past (le, later) =
      let window = filter (is_recent now) log in
      let dropped : drop_old per_second requests_per_minute now (filter (is_recent before) log)
          ≡ window =
        drop_old-filter now (filter (is_recent before) log) 0
          (filter-IsOrdered (is_recent before) log 0 0 (omega arith) o)
        ∙ filter-filter now before log le in
      let past' = All-map (λ t. t ≤ before) (λ t. t ≤ now) log (λ t h. omega arith) past in
      rw dropped (elim (Bool-cases (ltb (length window) requests_per_minute)) [
        | inl room ↦
            let (accepted, grown) = decided-room now window room in
            rw room (
              rw accepted (
                rw (grown ∙ sym (filter-append now log tick)) (
                  ap (λ l. true ∷ l)
                    (answers-meant rest (log ++ now ∷ []) now tick
                      (append-IsOrdered log 0 now (omega arith) o past')
                      (All-append (λ t. t ≤ now) log (now ∷ []) past' (omega arith, tt)) later))))
        | inr full ↦
            let (refused, kept) = decided-full now window full in
            rw full (
              rw refused
                (rw kept (ap (λ l. false ∷ l) (answers-meant rest log now tick o past' later))))
      ])
