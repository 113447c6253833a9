-- ===== src/Sort/Cli.antt =====
-- `validate_cli` of LAB_6/src/sort_index.c, and what the accepted arguments mean for the rounds.
use Prim.Native.Nat.{bit_and}
use os_sp.Prelude.{
  ℕ, ◌+◌, ◌-◌, ◌*◌, ◌%◌, ◌≤◌, ◌<◌, ◌≡◌, refl, subst, Bool, true, false, not, ◌&&◌, ◌||◌, List, ◌++◌,
  [], arith, length, ltb, ◌==◌, if◌then◌else◌, get_or, take, drop,
}
use os_sp.Prelude.Int.{ℤ, pos, negsuc}
use os_sp.Message.{Status, success, failure}
use os_sp.Sort.{SortContext, no_block, merge_round}
use os_sp.Sort.Runs.{Run}
use os_sp.Sort.Rounds.{Holds}
use os_sp.Sort.Rounds.Unmerged.{merge_round-unmerged}

-- The numbers of `struct cli_args`; `blocks` and `threads` are signed.
pub record CliArgs : Type 0 where
  pub memsize : ℕ
  pub blocks : ℤ
  pub threads : ℤ

unfoldable pub is_power_of_two : ℤ → Bool
is_power_of_two (negsuc n) = false
is_power_of_two (pos x) = ltb 0 x && bit_and x (x - 1) == 0

-- The tests on the threads, for the blocks that `is_power_of_two` has let pass. `4 * threads` is
-- taken to fit an `int`, since the overflow of a signed product is undefined.
unfoldable pub validate_threads : (blocks threads : ℤ) → Status
validate_threads blocks (negsuc n) = failure
validate_threads (negsuc n) (pos t) = failure
validate_threads (pos b) (pos t) =
    if t == 0 then failure else if ltb b (4 * t) then failure else success

-- `pagesize` is what `sysconf` returns.
unfoldable pub validate_cli : (pagesize : ℤ) → CliArgs → Status
unfolding is_power_of_two validate_threads
validate_cli (negsuc n) args = failure
validate_cli (pos pagesize) args =
    if args.memsize == 0 || not (args.memsize % pagesize == 0)
    then failure
    else if not (is_power_of_two args.blocks)
    then failure
    else validate_threads args.blocks args.threads

-- What the accepted arguments are.
pub record Accepted (pagesize : ℤ) (args : CliArgs) (page blocks threads : ℕ) : Type 0 where
  pub page_eq : pagesize ≡ pos page
  pub blocks_eq : args.blocks ≡ pos blocks
  pub threads_eq : args.threads ≡ pos threads
  pub some_memory : 0 < args.memsize
  pub whole_pages : args.memsize % page ≡ 0
  pub power : is_power_of_two (pos blocks) ≡ true
  pub some_threads : 0 < threads
  pub enough_blocks : 4 * threads ≤ blocks

validate_threads-success :
    (blocks threads : ℤ)
    → validate_threads blocks threads ≡ success
    → (b : ℕ) × (t : ℕ) × (blocks ≡ pos b) × (threads ≡ pos t) × (0 < t) × (4 * t ≤ b)
unfolding validate_threads
validate_threads-success blocks (negsuc n) e = cc
validate_threads-success (negsuc n) (pos t) e = cc
validate_threads-success (pos b) (pos t) e = (b, t, refl, refl, ground arith, ground arith)

two_tests :
    (t p : Bool) (s : Status)
    → (if t then failure else if p then failure else s) ≡ success
    → (t ≡ false) × (p ≡ false) × (s ≡ success)
two_tests true p s e = cc
two_tests false true s e = cc
two_tests false false s e = (refl, refl, e)

-- `validate_cli` accepts only a positive whole number of pages, a power of two of blocks and a
-- positive number of threads, with at least four blocks for each thread.
pub validate_cli-Accepted :
    (pagesize : ℤ) (args : CliArgs)
    → validate_cli pagesize args ≡ success
    → (page : ℕ) × (blocks : ℕ) × (threads : ℕ) × Accepted pagesize args page blocks threads
unfolding validate_cli
validate_cli-Accepted (negsuc n) args e = cc
validate_cli-Accepted (pos page) args e =
    let (memory, power, threads_ok) =
      two_tests (args.memsize == 0 || not (args.memsize % page == 0))
        (not (is_power_of_two args.blocks)) (validate_threads args.blocks args.threads) e in
    let (b, t, eb, et, some_threads, enough) =
      validate_threads-success args.blocks args.threads threads_ok in
    (
      page,
      b,
      t,
      record {
        page_eq = refl;
        blocks_eq = eb;
        threads_eq = et;
        some_memory = ground arith;
        whole_pages = ground arith;
        power = subst (λ x. is_power_of_two x ≡ true) eb (ground arith);
        some_threads = some_threads;
        enough_blocks = enough;
      },
    )

-- If `validate_cli` accepts the arguments and the phase has their threads and holds as many runs
-- as they have blocks, then the first round leaves a pair unmerged: the new block with the number
-- of the threads holds two of the runs one after the other.
pub validate_cli-unmerged :
    (pagesize : ℤ) (args : CliArgs) (ctx : SortContext) (rs : List Run)
    → validate_cli pagesize args ≡ success
    → args.blocks ≡ pos (length rs)
    → args.threads ≡ pos ctx.threads
    → Holds ctx rs
    → let after = merge_round ctx in
      let b = get_or after.block_map ctx.threads no_block in
      take b.size (drop b.offset after.buf)
      ≡ get_or rs (ctx.threads * 2) [] ++ get_or rs (ctx.threads * 2 + 1) []
validate_cli-unmerged pagesize args ctx rs e eb et h =
    let (page, b, t, a) = validate_cli-Accepted pagesize args e in
    let same_blocks : b ≡ length rs = cc (a.blocks_eq, eb) in
    let same_threads : t ≡ ctx.threads = cc (a.threads_eq, et) in
    merge_round-unmerged ctx rs ctx.threads h (omega arith)
      (omega (arith, a.some_threads, a.enough_blocks, same_blocks, same_threads))
