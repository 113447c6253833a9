-- ===== src/Sort/Workers/Phase.antt =====
-- The local sort of LAB_6/src/sort_index.c, whatever the order in which its threads take steps.
use os_sp.Prelude.{
  ℕ, ◌<◌, ◌≡◌, ◌∙◌, refl, sym, ap, subst, Bool, Option, none, some, List, ◌∷◌, ◌++◌, arith, length,
  length-set, get_or, total-middle, All, All-middle, All-replace, All-set, All-at,
}
use os_sp.Sort.{Index, BlockInfo, free, busy, finished, no_block, get_free_block_for_sort}
use os_sp.Sort.Claim.{Taken, Claim, claimed, exhausted, get_free_block_for_sort-Claim}
use os_sp.Sort.Runs.{Run}
use os_sp.Sort.Workers.{
  Worker, claiming, sorting, marking, arrived, with_state, LocalSort, sort_block, WorkerStep,
  claims, finds_none, sorts, marks, Runs, stays, goes,
}
use os_sp.Sort.Workers.Buffer.{also, also_self, also_other, sort_block-also, Describes-with_state}
use os_sp.Sort.Workers.Held.{
  state_at, holds, is_busy, Matches, Knows, Other, bit_refl, bit_other, bit_apart, alone,
  others_hold, moved, state_at-same, state_at-other, Going,
}

module _ (qsort : List Index → List Index)
    (same_length : (r : List Index) → length (qsort r) ≡ length r) where
  claims-others :
      (bs : List BlockInfo) (sorted : ℕ → Bool) (i : ℕ)
      → i < length bs
      → state_at bs i ≡ free
      → (u : Worker) → Knows bs sorted u
      → Knows (with_state busy bs i) sorted u
  claims-others bs sorted i inside was claiming k = k
  claims-others bs sorted i inside was (sorting j) k =
      let same = length-set bs i (record (get_or bs i no_block) { state = busy }) in
      (omega (arith, same, k.0), k.1)
  claims-others bs sorted i inside was (marking j) k =
      let same = length-set bs i (record (get_or bs i no_block) { state = busy }) in
      (omega (arith, same, k.0), k.1)
  claims-others bs sorted i inside was arrived k = absurd (All-at Taken bs i no_block inside k was)

  claimed-Going :
      (rs : List Run) (buf : List Index) (bs : List BlockInfo) (before after : List Worker)
      (sorted : ℕ → Bool) (i : ℕ)
      → Going qsort same_length rs buf bs (before ++ claiming ∷ after) sorted
      → i < length bs
      → state_at bs i ≡ free
      → Going qsort same_length rs buf (with_state busy bs i) (before ++ sorting i ∷ after) sorted
  claimed-Going rs buf bs before after sorted i g inside was =
      let same = state_at-same busy bs i inside in
      let same_map = length-set bs i (record (get_or bs i no_block) { state = busy }) in
      let unsorted = subst (λ s. Matches s (sorted i)) was (g.matching i inside) in
      moved qsort same_length rs buf buf bs (with_state busy bs i) before after claiming (sorting i)
        sorted sorted i g g.in_buf (Describes-with_state 0 bs rs busy i g.in_map) same_map
        (λ j n. state_at-other busy bs i j (λ e. n (sym e))) (λ j n. refl)
        (λ j n. bit_other qsort same_length i j n)
        (omega (
          arith,
          others_hold qsort same_length rs buf bs before after claiming sorted i g inside,
          ap is_busy was,
        ))
        (bit_refl qsort same_length i ∙ sym (ap is_busy same))
        (subst (λ s. Matches s (sorted i)) (sym same) tt)
        (λ u other k. claims-others bs sorted i inside was u k)
        (omega (arith, same_map, inside), unsorted)

  -- What a claim leaves.
  abbrev Left :
      List Run
      → List Index
      → List Worker
      → List Worker
      → (ℕ → Bool)
      → Option (ℕ × List BlockInfo)
      → Type 0
  Left rs buf before after sorted none = Unit
  Left rs buf before after sorted (some r) =
      Going qsort same_length rs buf r.1 (before ++ sorting r.0 ∷ after) sorted

  claims-Going :
      (rs : List Run) (buf : List Index) (bs : List BlockInfo) (before after : List Worker)
      (sorted : ℕ → Bool) (o : Option (ℕ × List BlockInfo))
      → Going qsort same_length rs buf bs (before ++ claiming ∷ after) sorted
      → Claim bs o
      → Left rs buf before after sorted o
  claims-Going rs buf bs before after sorted _ g (claimed i inside was earlier) =
      claimed-Going rs buf bs before after sorted i g inside was
  claims-Going rs buf bs before after sorted _ g (exhausted all) = tt

  none_free :
      (bs : List BlockInfo) (o : Option (ℕ × List BlockInfo)) → Claim bs o → o ≡ none → All Taken bs
  none_free bs _ (claimed i inside was earlier) e = ground (arith, e)
  none_free bs _ (exhausted all) e = all

  finds_none-Going :
      (rs : List Run) (buf : List Index) (bs : List BlockInfo) (before after : List Worker)
      (sorted : ℕ → Bool)
      → Going qsort same_length rs buf bs (before ++ claiming ∷ after) sorted
      → All Taken bs
      → Going qsort same_length rs buf bs (before ++ arrived ∷ after) sorted
  finds_none-Going rs buf bs before after sorted g all = record {
    in_buf = g.in_buf;
    in_map = g.in_map;
    held = λ i h. omega (
      arith,
      total-middle (holds i) before after claiming,
      total-middle (holds i) before after arrived,
      g.held i h,
    );
    matching = g.matching;
    known = All-replace (Knows bs sorted) before after claiming arrived g.known all;
  }

  sorts-others :
      (bs : List BlockInfo) (sorted : ℕ → Bool) (i : ℕ) (u : Worker)
      → Other qsort same_length i u
      → Knows bs sorted u
      → Knows bs (also sorted i) u
  sorts-others bs sorted i claiming other k = k
  sorts-others bs sorted i (sorting j) other k =
      (k.0, also_other qsort same_length sorted i j (bit_apart qsort same_length i j other) ∙ k.1)
  sorts-others bs sorted i (marking j) other k =
      (k.0, also_other qsort same_length sorted i j (bit_apart qsort same_length i j other) ∙ k.1)
  sorts-others bs sorted i arrived other k = k

  sorts-Going :
      (rs : List Run) (buf : List Index) (bs : List BlockInfo) (before after : List Worker)
      (sorted : ℕ → Bool) (i : ℕ)
      → Going qsort same_length rs buf bs (before ++ sorting i ∷ after) sorted
      → Going qsort same_length rs
          (sort_block qsort (get_or bs i no_block) buf)
          bs
          (before ++ marking i ∷ after)
          (also sorted i)
  sorts-Going rs buf bs before after sorted i g =
      let (inside, unsorted) = All-middle (Knows bs sorted) before after (sorting i) g.known in
      let (none_else, is_claimed) =
        alone qsort same_length rs buf bs before after (sorting i) sorted i g inside
          (bit_refl qsort same_length i) in
      moved qsort same_length rs buf (sort_block qsort (get_or bs i no_block) buf) bs bs before
        after (sorting i) (marking i) sorted (also sorted i) i g
        (ap (sort_block qsort (get_or bs i no_block)) g.in_buf
          ∙ sort_block-also qsort same_length bs rs sorted i g.in_map inside unsorted)
        g.in_map refl (λ j n. refl) (λ j n. also_other qsort same_length sorted i j n) (λ j n. refl)
        none_else (bit_refl qsort same_length i ∙ sym (ap is_busy is_claimed))
        (subst (λ s. Matches s (also sorted i i)) (sym is_claimed) tt) (sorts-others bs sorted i)
        (inside, also_self qsort same_length sorted i)

  marks-others :
      (bs : List BlockInfo) (sorted : ℕ → Bool) (i : ℕ) (u : Worker)
      → Knows bs sorted u
      → Knows (with_state finished bs i) sorted u
  marks-others bs sorted i claiming k = k
  marks-others bs sorted i (sorting j) k =
      let same = length-set bs i (record (get_or bs i no_block) { state = finished }) in
      (omega (arith, same, k.0), k.1)
  marks-others bs sorted i (marking j) k =
      let same = length-set bs i (record (get_or bs i no_block) { state = finished }) in
      (omega (arith, same, k.0), k.1)
  marks-others bs sorted i arrived k =
      All-set Taken bs i (record (get_or bs i no_block) { state = finished })
        (λ e. ground (arith, e)) k

  marks-Going :
      (rs : List Run) (buf : List Index) (bs : List BlockInfo) (before after : List Worker)
      (sorted : ℕ → Bool) (i : ℕ)
      → Going qsort same_length rs buf bs (before ++ marking i ∷ after) sorted
      → Going qsort same_length rs buf
          (with_state finished bs i)
          (before ++ claiming ∷ after)
          sorted
  marks-Going rs buf bs before after sorted i g =
      let (inside, is_sorted) = All-middle (Knows bs sorted) before after (marking i) g.known in
      let (none_else, _) =
        alone qsort same_length rs buf bs before after (marking i) sorted i g inside
          (bit_refl qsort same_length i) in
      let same = state_at-same finished bs i inside in
      let bs' = with_state finished bs i in
      let same_map = length-set bs i (record (get_or bs i no_block) { state = finished }) in
      moved qsort same_length rs buf buf bs bs' before after (marking i) claiming sorted sorted i g
        g.in_buf (Describes-with_state 0 bs rs finished i g.in_map) same_map
        (λ j n. state_at-other finished bs i j (λ e. n (sym e))) (λ j n. refl)
        (λ j n. sym (bit_other qsort same_length i j n)) none_else (sym (ap is_busy same))
        (subst (λ s. Matches s (sorted i)) (sym same) is_sorted)
        (λ u other k. marks-others bs sorted i u k) tt

  -- Some set of blocks is sorted.
  pub record Sorting (rs : List Run) (s : LocalSort) : Type 0 where
    pub sorted : ℕ → Bool
    pub going : Going qsort same_length rs s.buf s.block_map s.workers sorted

  step-Sorting :
      (rs : List Run) (buf buf' : List Index) (bs bs' : List BlockInfo) (before after : List Worker)
      (w w' : Worker)
      → Sorting rs (record { buf = buf; block_map = bs; workers = before ++ w ∷ after })
      → WorkerStep qsort buf bs w buf' bs' w'
      → Sorting rs (record { buf = buf'; block_map = bs'; workers = before ++ w' ∷ after })
  step-Sorting rs _ _ _ _ before after _ _ t (claims buf bs bs' i e) = record {
    sorted = t.sorted;
    going = subst (Left rs buf before after t.sorted) e (
        claims-Going rs buf bs before after t.sorted (get_free_block_for_sort bs) t.going
          (get_free_block_for_sort-Claim bs));
  }
  step-Sorting rs _ _ _ _ before after _ _ t (finds_none buf bs e) = record {
    sorted = t.sorted;
    going =
        finds_none-Going rs buf bs before after t.sorted t.going
          (none_free bs (get_free_block_for_sort bs) (get_free_block_for_sort-Claim bs) e);
  }
  step-Sorting rs _ _ _ _ before after _ _ t (sorts buf bs i) = record {
    sorted = also t.sorted i;
    going = sorts-Going rs buf bs before after t.sorted i t.going;
  }
  step-Sorting rs _ _ _ _ before after _ _ t (marks buf bs i) = record {
    sorted = t.sorted;
    going = marks-Going rs buf bs before after t.sorted i t.going;
  }

  pub Runs-Sorting :
      (rs : List Run) (s t : LocalSort) → Sorting rs s → Runs qsort s t → Sorting rs t
  Runs-Sorting rs s _ h (stays _) = h
  Runs-Sorting rs s _ h (goes _ buf buf' bs bs' before after w w' r step) =
      step-Sorting rs buf buf' bs bs' before after w w' (Runs-Sorting rs s _ h r) step
