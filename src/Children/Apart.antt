-- ===== src/Children/Apart.antt =====
-- LAB_3: what stays true of one child, when no `SIGUSR2` is on its way to it and it asks for none.
use os_sp.Prelude.{
  All-append, map, ◌+◌, subst, Bool, All-weaken, ℕ_discrete, ℕ, ◌<◌, ◌≡◌, ◌≢◌, ◌==◌, ==_iff, refl,
  sym, ◌∙◌, ap, Option, none, some, List, ◌∷◌, ◌++◌, if-holds, arith, All, All-middle, All-replace,
  All-map, All-unmap, true,
}
use os_sp.Children.{
  ParentPlace, checking, resetting, selecting, removing, reaping, Removal, all_and_exit, IsFresh,
  after_removal, next_removal, Child, ChildStep, begins_cycle, leaves_loop, completes, breaks_off,
  asks, ask_fails, clears, must_wait, pauses, goes_on, reports, handles_usr2, handles_term,
  new_child, get_usr2, get_term, ask, Parent, ParentStep, sees_sigint, grants, resets, grants_none,
  gets_no_command, creates, gets_removal, has_none, deletes, reaps, handles_usr1, handles_int,
  Family, child_acts, parent_acts, Runs, stays, goes,
}

ChildStep-pid : (q q' : Option ℕ) (c c' : Child) → ChildStep q c q' c' → c'.pid ≡ c.pid
ChildStep-pid q _ c _ (begins_cycle _ _ at go more) = refl
ChildStep-pid q _ c _ (leaves_loop _ _ at e) = refl
ChildStep-pid q _ c _ (completes _ _ at go) = refl
ChildStep-pid q _ c _ (breaks_off _ _ at e) = refl
ChildStep-pid q _ c _ (asks _ _ at) = refl
ChildStep-pid q _ c _ (ask_fails _ _ at) = refl
ChildStep-pid q _ c _ (clears _ _ at) = refl
ChildStep-pid q _ c _ (must_wait _ _ at none_given go) = refl
ChildStep-pid q _ c _ (pauses _ _ at) = refl
ChildStep-pid q _ c _ (goes_on _ _ at why) = refl
ChildStep-pid q _ c _ (reports _ _ at go) = refl
ChildStep-pid q _ c _ (handles_usr2 _ _ at e) = refl
ChildStep-pid q _ c _ (handles_term _ _ at e) = refl

ask-other : (q : Option ℕ) (pid b : ℕ) → q ≢ some b → pid ≢ b → ask q pid ≢ some b
ask-other none pid b h n e = n (ground (arith, e))
ask-other (some a) pid b h n e = h e

-- A child's step makes no other child the pending asker.
ChildStep-asker :
    (q q' : Option ℕ) (c c' : Child) (b : ℕ)
    → ChildStep q c q' c'
    → c.pid ≢ b
    → q ≢ some b
    → q' ≢ some b
ChildStep-asker q _ c _ b (asks _ _ at) n h = ask-other q c.pid b h n
ChildStep-asker q _ c _ b (begins_cycle _ _ at go more) n h = h
ChildStep-asker q _ c _ b (leaves_loop _ _ at e) n h = h
ChildStep-asker q _ c _ b (completes _ _ at go) n h = h
ChildStep-asker q _ c _ b (breaks_off _ _ at e) n h = h
ChildStep-asker q _ c _ b (ask_fails _ _ at) n h = h
ChildStep-asker q _ c _ b (clears _ _ at) n h = h
ChildStep-asker q _ c _ b (must_wait _ _ at none_given go) n h = h
ChildStep-asker q _ c _ b (pauses _ _ at) n h = h
ChildStep-asker q _ c _ b (goes_on _ _ at why) n h = h
ChildStep-asker q _ c _ b (reports _ _ at go) n h = h
ChildStep-asker q _ c _ b (handles_usr2 _ _ at e) n h = h
ChildStep-asker q _ c _ b (handles_term _ _ at e) n h = h

-- `P` holds of the child `b`, which is there; the parent has no request of it; and `R` holds of the
-- processes that the parent can delete.
pub record Apart (b : ℕ) (P : Child → Type 0) (R : List ℕ → Type 0) (s : Family) : Type 0 where
  pub is_child : ¬ All (λ c. c.pid ≢ b) s.children
  pub holds : All (λ c. (c.pid ≡ b) → P c) s.children
  pub not_asking : s.parent.usr1 ≢ some b
  pub not_ready : s.parent.ready_to_print_pid ≢ b
  pub listed : R s.parent.child_pids

-- The only child with its number, in the middle of the list.
pub only :
    (P : Child → Type 0) (before after : List Child) (c : Child)
    → All (λ d. d.pid ≢ c.pid) before
    → All (λ d. d.pid ≢ c.pid) after
    → P c
    → All (λ d. (d.pid ≡ c.pid) → P d) (before ++ c ∷ after)
only P before after c left right h =
    All-append (λ d. (d.pid ≡ c.pid) → P d) before (c ∷ after)
      (All-weaken (λ d. d.pid ≢ c.pid) (λ d. (d.pid ≡ c.pid) → P d) before (λ d n e. absurd (n e))
        left)
      (
        λ _. h,
        All-weaken (λ d. d.pid ≢ c.pid) (λ d. (d.pid ≡ c.pid) → P d) after (λ d n e. absurd (n e))
            right,
      )

module _ (b : ℕ) (P : Child → Type 0) (R : List ℕ → Type 0) where
  -- What the child does by itself keeps `P`, and it does not ask.
  abbrev pub OwnSteps : Type 0
  OwnSteps = (q q' : Option ℕ) (c c' : Child) → ChildStep q c q' c' → P c → P c' × (q' ≡ q)

  -- A deletion keeps `P` and `R`, a creation keeps `R`.
  abbrev pub Deletion : Type 0
  Deletion =
      (pid : ℕ) (rest : List ℕ)
      → R (pid ∷ rest)
      → R rest × ((c : Child) → c.pid ≡ b → P c → P (get_term pid c))

  abbrev pub Creation : Type 0
  Creation = (pid : ℕ) (pids : List ℕ) → pid ≢ b → R pids → R (pid ∷ pids)

  -- The parent goes to another place, without a change that matters here.
  moved :
      (p : Parent) (cs : List Child) (at : ParentPlace) (int : Bool) (ready : ℕ) (q : Option ℕ)
      → ready ≢ b
      → q ≢ some b
      → Apart b P R (record { parent = p; children = cs })
      → Apart b P R (record {
        parent = record p { place = at; got_sigint = int; ready_to_print_pid = ready; usr1 = q };
        children = cs;
      })
  moved p cs at int ready q r n a = record {
    is_child = a.is_child;
    holds = a.holds;
    not_asking = n;
    not_ready = r;
    listed = a.listed;
  }

  -- A change of every child that keeps its number and `P`.
  mapped :
      (p p' : Parent) (cs : List Child) (f : Child → Child)
      → ((c : Child) → (f c).pid ≡ c.pid)
      → ((c : Child) → (c.pid ≡ b → P c) → c.pid ≡ b → P (f c))
      → p'.usr1 ≡ p.usr1
      → p'.ready_to_print_pid ≡ p.ready_to_print_pid
      → R p'.child_pids
      → Apart b P R (record { parent = p; children = cs })
      → Apart b P R (record { parent = p'; children = map f cs })
  mapped p p' cs f same keeps usr1 ready pids a = record {
    is_child = λ h.
        a.is_child (All-unmap (λ c. c.pid ≢ b) (λ c. c.pid ≢ b) f cs (λ c n e. n (same c ∙ e)) h);
    holds =
        All-map (λ c. c.pid ≡ b → P c) (λ c. c.pid ≡ b → P c) f cs
          (λ c h e. keeps c h (sym (same c) ∙ e)) a.holds;
    not_asking = λ e. a.not_asking (sym usr1 ∙ e);
    not_ready = λ e. a.not_ready (sym ready ∙ e);
    listed = pids;
  }

  get_usr2-other :
      (pid : ℕ) (c : Child) → pid ≢ b → (c.pid ≡ b → P c) → c.pid ≡ b → P (get_usr2 pid c)
  get_usr2-other pid c n h e =
      if-holds P (c.pid == pid) (record c { usr2 = true; granted = c.granted + 1 }) c
        (λ same. absurd (n (sym ((==_iff c.pid pid).0 same) ∙ e))) (λ _. h e)

  get_usr2-pid : (pid : ℕ) (c : Child) → (get_usr2 pid c).pid ≡ c.pid
  get_usr2-pid pid c =
      if-holds (λ d. d.pid ≡ c.pid) (c.pid == pid)
        (record c { usr2 = true; granted = c.granted + 1 }) c (λ _. refl) (λ _. refl)

  get_term-pid : (pid : ℕ) (c : Child) → (get_term pid c).pid ≡ c.pid
  get_term-pid pid c =
      if-holds (λ d. d.pid ≡ c.pid) (c.pid == pid) (record c { term = true }) c (λ _. refl)
        (λ _. refl)

  created :
      (p : Parent) (cs : List Child) (pid : ℕ)
      → Creation
      → IsFresh pid cs
      → Apart b P R (record { parent = p; children = cs })
      → Apart b P R (record {
        parent = record p { place = checking; child_pids = pid ∷ p.child_pids };
        children = new_child pid ∷ cs;
      })
  created p cs pid creation fresh a =
      let other : pid ≢ b = λ e. a.is_child (
        All-weaken (λ c. c.pid ≢ pid) (λ c. c.pid ≢ b) cs (λ c n same. n (same ∙ sym e)) fresh.1) in
      record {
        is_child = λ h. a.is_child h.1;
        holds = (λ e. absurd (other e), a.holds);
        not_asking = a.not_asking;
        not_ready = a.not_ready;
        listed = creation pid p.child_pids other a.listed;
      }

  deleted :
      (p : Parent) (cs : List Child) (k : Removal) (pid : ℕ) (rest : List ℕ)
      → Deletion
      → p.child_pids ≡ pid ∷ rest
      → Apart b P R (record { parent = p; children = cs })
      → Apart b P R (record {
        parent = record p { place = reaping k pid; child_pids = rest };
        children = map (get_term pid) cs;
      })
  deleted p cs k pid rest deletion e a =
      let (left, keeps) = deletion pid rest (subst R e a.listed) in
      mapped p (record p { place = reaping k pid; child_pids = rest }) cs (get_term pid)
        (get_term-pid pid) (λ c h same. keeps c same (h same)) refl refl left a

  ParentStep-Apart :
      (p p' : Parent) (cs cs' : List Child)
      → 0 < b
      → Deletion
      → Creation
      → ParentStep p cs p' cs'
      → Apart b P R (record { parent = p; children = cs })
      → Apart b P R (record { parent = p'; children = cs' })
  ParentStep-Apart p _ cs _ pos d n (sees_sigint _ _ at int) a =
      moved p cs (removing all_and_exit) p.got_sigint p.ready_to_print_pid p.usr1 a.not_ready
        a.not_asking a
  ParentStep-Apart p _ cs _ pos d n (grants _ _ at quiet ready) a =
      mapped p (record p { place = resetting }) cs (get_usr2 p.ready_to_print_pid)
        (get_usr2-pid p.ready_to_print_pid) (λ c. get_usr2-other p.ready_to_print_pid c a.not_ready)
        refl refl a.listed a
  ParentStep-Apart p _ cs _ pos d n (resets _ _ at) a =
      moved p cs selecting p.got_sigint 0 p.usr1 (λ e. omega (arith, e)) a.not_asking a
  ParentStep-Apart p _ cs _ pos d n (grants_none _ _ at quiet ready) a =
      moved p cs selecting p.got_sigint p.ready_to_print_pid p.usr1 a.not_ready a.not_asking a
  ParentStep-Apart p _ cs _ pos d n (gets_no_command _ _ at) a =
      moved p cs checking p.got_sigint p.ready_to_print_pid p.usr1 a.not_ready a.not_asking a
  ParentStep-Apart p _ cs _ pos d n (creates _ _ pid at room fresh) a = created p cs pid n fresh a
  ParentStep-Apart p _ cs _ pos d n (gets_removal _ _ k at) a =
      moved p cs (removing k) p.got_sigint p.ready_to_print_pid p.usr1 a.not_ready a.not_asking a
  ParentStep-Apart p _ cs _ pos d n (has_none _ _ k at e) a =
      moved p cs (after_removal k) p.got_sigint p.ready_to_print_pid p.usr1 a.not_ready a.not_asking
        a
  ParentStep-Apart p _ cs _ pos d n (deletes _ _ k pid rest at e) a = deleted p cs k pid rest d e a
  ParentStep-Apart p _ cs _ pos d n (reaps _ _ k pid at e) a =
      moved p cs (next_removal k) p.got_sigint p.ready_to_print_pid p.usr1 a.not_ready a.not_asking
        a
  ParentStep-Apart p _ cs _ pos d n (handles_usr1 _ _ pid at e place) a =
      moved p cs at p.got_sigint pid none (λ same. a.not_asking (e ∙ ap some same))
        (λ none_is. absurd (ground (arith, none_is))) a
  ParentStep-Apart p _ cs _ pos d n (handles_int _ _ at place) a =
      moved p cs at true p.ready_to_print_pid p.usr1 a.not_ready a.not_asking a

  child_acted :
      (p : Parent) (before after : List Child) (c c' : Child) (q : Option ℕ)
      → OwnSteps
      → ChildStep p.usr1 c q c'
      → Apart b P R (record { parent = p; children = before ++ c ∷ after })
      → Apart b P R (record { parent = record p { usr1 = q }; children = before ++ c' ∷ after })
  child_acted p before after c c' q own step a =
      let same = ChildStep-pid p.usr1 q c c' step in
      let h = All-middle (λ c. c.pid ≡ b → P c) before after c a.holds in
      record {
        is_child = λ none_there. a.is_child (
            All-replace (λ c. c.pid ≢ b) before after c' c none_there
              (λ e. All-middle (λ c. c.pid ≢ b) before after c' none_there (same ∙ e)));
        holds =
            All-replace (λ c. c.pid ≡ b → P c) before after c c' a.holds
              (λ e. (own p.usr1 q c c' step (h (sym same ∙ e))).0);
        not_asking = elim (ℕ_discrete c.pid b) [
          | yes e ↦ λ asked. a.not_asking (sym (own p.usr1 q c c' step (h e)).1 ∙ asked)
          | no n ↦ ChildStep-asker p.usr1 q c c' b step n a.not_asking
        ];
        not_ready = a.not_ready;
        listed = a.listed;
      }

  pub Runs-Apart :
      (s t : Family)
      → 0 < b
      → OwnSteps
      → Deletion
      → Creation
      → Runs s t
      → Apart b P R s
      → Apart b P R t
  Runs-Apart s _ pos own d n (stays _) a = a
  Runs-Apart s _ pos own d n (goes _ _ _ run (child_acts p before after c c' q step)) a =
      child_acted p before after c c' q own step
        (Runs-Apart s (record { parent = p; children = before ++ c ∷ after }) pos own d n run a)
  Runs-Apart s _ pos own d n (goes _ _ _ run (parent_acts p p' cs cs' step)) a =
      ParentStep-Apart p p' cs cs' pos d n step
        (Runs-Apart s (record { parent = p; children = cs }) pos own d n run a)
