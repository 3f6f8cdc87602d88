-- ===== src/Scanner/Tests.antt =====
-- The theorems on scans at a chain of three blocks.
use account_service.Common.{
  ◌<>◌, ℕ, ◌+◌, ◌≤◌, ◌≡◌, refl, ◌⊎◌, true, false, some, [], ◌∷◌, ◌<>◌, nat_eq, ℕ_discrete, leb,
  if◌then◌else◌, arith,
}
use account_service.Js.{Throwable, Outcome, resolved, rejected, end_of_chain_error}
use account_service.Js.Action.{pure, gets, lift}
use account_service.Decimal.{to_string}
use account_service.Scanner.{
  BlockHash, Methods, Scanner, returned, threw, scan_block, scan_loop, scan_body, scan,
  ScanParameters, base_check_scan_parameters, has_nonzero_byte, scan_start, run_loop, exit_outcome,
  caught,
}
use account_service.Scanner.Loop.{Follows, scan_loop-ends, base_check_scan_parameters-state}
use account_service.Scanner.Scan.{is_quiet, scan_cases, KeepsSeen, Recorded, scan_loop-seen}
use account_service.Scanner.Overlap.{Reaches, idle, scans_overlap, scanning}

-- The blocks up to 3 have a hash.
abbrev hash_of : ℕ → BlockHash
hash_of k =
    if leb k 3
    then record { bytes = k ∷ 7 ∷ []; is_empty = false }
    else record { bytes = 0 ∷ 0 ∷ []; is_empty = true }

abbrev parameters : ScanParameters
parameters = record { only_finalized = some true }

-- The state is the number of the last block that was recorded; block 3 is the latest finalized one.
abbrev counting : Methods ℕ
counting = record {
  check_initial_scan_parameters = pure tt;
  check_scan_parameters = base_check_scan_parameters parameters (lift (resolved 3));
  process_current_block = λ hash number. pure tt;
  get_last_seen_block_number = gets (λ w. w);
  set_last_seen_block_number = λ n w. (resolved tt, n);
  get_block_hash = λ n. lift (resolved (hash_of n));
}

abbrev end_of_blocks : Throwable
end_of_blocks = end_of_chain_error "Empty block hash encountered; end of chain at block 4"

loop_ends_at_4 : scan_loop counting 5 1 (hash_of 1) 0 ≡ some (end_of_blocks, 3)
unfolding scan_loop scan_block base_check_scan_parameters ℕ_discrete to_string
loop_ends_at_4 = refl

answered : (a b : BlockHash) → resolved a ≡ resolved b → a ≡ b
answered a b e = cc

after_3 : (k : ℕ) → 4 ≤ k → leb k 3 ≡ false
after_3 k late = ground arith

late_block :
    (k : ℕ) (h : BlockHash) (w : ℕ)
    → 4 ≤ k
    → hash_of k ≡ h
    → (e : Throwable) × ((counting.check_scan_parameters k h w).0 ≡ rejected e)
unfolding base_check_scan_parameters
late_block k h w late e = rw⁻¹ e (
    rw (after_3 k late, base_check_scan_parameters)
      (
        end_of_chain_error ("Empty block hash encountered; end of chain at block " <> to_string k),
        refl,
      ))

scan_loop-ends_example : (out : Throwable × ℕ) × (scan_loop counting 4 1 (hash_of 1) 0 ≡ some out)
scan_loop-ends_example =
    scan_loop-ends counting (λ k h. hash_of k ≡ h) 4 (λ k h w e. answered (hash_of k) h e)
      late_block 4 1 (hash_of 1) 0 refl (omega arith) (omega arith)

counting-KeepsSeen : KeepsSeen counting (λ w. w)
counting-KeepsSeen = record {
  check = λ n h w. base_check_scan_parameters-state parameters (resolved 3) n h w;
  process = λ n h w. refl;
  record_done = λ n w e. refl;
  record_failed = λ n w t e. cc;
  hash = λ n w. refl;
}

scan_loop-seen_example :
    (k : ℕ) × (h : BlockHash) × (w : ℕ) × Follows counting 1 (hash_of 1) 0 k h w
    × (w + 1 ≡ k)
    × ((3 + 1 ≡ k) ⊎ Recorded counting (λ w. w) counting-KeepsSeen k h w 3)
scan_loop-seen_example =
    scan_loop-seen counting (λ w. w) counting-KeepsSeen 5 1 (hash_of 1) 0 3 end_of_blocks refl
      loop_ends_at_4

abbrev scanner_at : ℕ → Scanner ℕ
scanner_at n = record { scan_in_progress = false; world = n }

scan_ends_at_4 : scan counting 5 (scanner_at 0) ≡ some (resolved tt, scanner_at 3)
unfolding scan scan_body scan_start run_loop exit_outcome caught has_nonzero_byte scan_loop
    scan_block base_check_scan_parameters ℕ_discrete to_string
scan_ends_at_4 = refl

scan_cases_example :
    ((false ≡ true)
      × (◌≡◌ {A = Outcome (Unit {0})} (resolved tt) (resolved tt))
      × (scanner_at 3 ≡ scanner_at 0))
    ⊎ ((false ≡ false)
        × (false ≡ false)
        × (((◌≡◌ {A = Outcome (Unit {0})} (resolved tt) (resolved tt))
              × (scan_body counting 5 0 ≡ some (returned, 3)))
            ⊎ ((e : Throwable) × (scan_body counting 5 0 ≡ some (threw e, 3))
                × (◌≡◌ {A = Outcome (Unit {0})}
                    (resolved tt)
                    (if is_quiet e then resolved tt else rejected e)))))
scan_cases_example =
    scan_cases counting 5 (scanner_at 0) (scanner_at 3) (resolved tt) scan_ends_at_4

scans_overlap_example :
    Reaches idle (record { scan_in_progress = false; running = scanning ∷ scanning ∷ [] })
scans_overlap_example = scans_overlap 2
