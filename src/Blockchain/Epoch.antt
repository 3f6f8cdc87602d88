-- ===== src/Blockchain/Epoch.antt =====
-- The capacity of the chain, as the publisher uses it, and the owner of a key.
use account_service.Common.{
  ℕ, ◌+◌, ◌*◌, ◌<◌, ◌≤◌, ◌≡◌, refl, ◌∙◌, inl, inr, ◌↔◌, String, Option, none, some, arith,
}
use account_service.Js.{resolved, rejected, delayed_error, Outcome-cases}
use account_service.Redis.{Keyspace}
use account_service.Redis.WatchList.{WatchList}
use account_service.Scheduler.{Scheduler}
use account_service.Types.{TransactionData}
use account_service.Publisher.{Publisher, World, process, epoch_timeout}
use account_service.Publisher.Decide.{CapacityInfo}
use account_service.Publisher.Capacity.{used_now, check_capacity-spent}
use account_service.Publisher.Submit.{Same}
use account_service.Publisher.Process.{process-delayed}
use account_service.Blockchain.{
  Node, CapacityDetails, public_key_to_msa_id, details_or_zero, capacity_info,
}

module _ (node : Node) where
  -- What a resolved call has been answered.
  pub record Answered (provider_id : String) (info : CapacityInfo) : Type 0 where
    pub epoch_start : ℕ
    pub epoch_length : ℕ
    pub ledger : Option CapacityDetails
    pub start_read : node.current_epoch_info ≡ resolved epoch_start
    pub length_read : node.epoch_length ≡ resolved epoch_length
    pub ledger_read : node.capacity_ledger provider_id ≡ resolved ledger
    pub number_read : node.number ≡ resolved info.current_block_number
    pub next_start : info.next_epoch_start ≡ epoch_start + epoch_length
    pub remaining : info.remaining_capacity ≡ (details_or_zero node ledger).remaining_capacity

  pub capacity_info-Answered :
      (provider_id : String) (info : CapacityInfo)
      → capacity_info node provider_id ≡ resolved info
      → Answered provider_id info
  unfolding capacity_info
  capacity_info-Answered provider_id info e = elim (Outcome-cases node.current_epoch_info) [
    | inr (t, e₁) ↦ ground arith
    | inl (start, e₁) ↦ elim (Outcome-cases node.epoch_length) [
      | inr (t, e₂) ↦ ground arith
      | inl (blocks, e₂) ↦ elim (Outcome-cases (node.capacity_ledger provider_id)) [
        | inr (t, e₃) ↦ ground arith
        | inl (ledger, e₃) ↦ elim (Outcome-cases node.number) [
          | inr (t, e₄) ↦ ground arith
          | inl (number, e₄) ↦ record {
            epoch_start = start;
            epoch_length = blocks;
            ledger = ledger;
            start_read = e₁;
            length_read = e₂;
            ledger_read = e₃;
            number_read = ground arith;
            next_start = ground arith;
            remaining = ground arith;
          }
        ]
      ]
    ]
  ]

  -- A call answers the msaId that the chain has for the key, and nothing else: for a key that the
  -- chain does not know it is rejected, and the null that the code means is never returned.
  pub public_key_to_msa_id_iff :
      (public_key : String) (out : Option String)
      → (public_key_to_msa_id node public_key ≡ resolved out) ↔ (
          (msa_id : String) × (out ≡ some msa_id)
          × (node.msa_id_of_public_key public_key ≡ resolved (some msa_id)))
  unfolding public_key_to_msa_id
  public_key_to_msa_id_iff public_key out =
      elim (Outcome-cases (node.msa_id_of_public_key public_key)) [
        | inr (t, e) ↦ ground arith
        | inl (none, e) ↦ ground arith
        | inl (some id, e) ↦ ground arith
      ]

  no_ledger :
      (ledger : Option CapacityDetails)
      → ledger ≡ none
      → (details_or_zero node ledger).remaining_capacity ≡ 0
  unfolding details_or_zero
  no_ledger ledger e = rw e refl

  module _ (K : Keyspace) (H : WatchList) (S : Scheduler) where
    -- The delay of the next test of the capacity: while the block of the chain is one of the epoch, and
    -- an epoch has at most 178956 blocks, the timer waits for the first block of the next epoch, and
    -- its delay is positive and fits the 31 bits that a timer of Node takes.
    pub epoch_timeout-capacity_info :
        (provider_id : String) (info : CapacityInfo) (start blocks : ℕ)
        → capacity_info node provider_id ≡ resolved info
        → node.current_epoch_info ≡ resolved start
        → node.epoch_length ≡ resolved blocks
        → start ≤ info.current_block_number
        → info.current_block_number < start + blocks
        → blocks ≤ 178956
        → (0 < epoch_timeout K H S info)
          × (epoch_timeout K H S info ≤ 2147483647)
          × (info.current_block_number * 12000 + epoch_timeout K H S info
              ≡ (start + blocks) * 12000)
    unfolding epoch_timeout
    epoch_timeout-capacity_info provider_id info start blocks e s b after before bound =
        let a = capacity_info-Answered provider_id info e in
        let next : info.next_epoch_start ≡ start + blocks =
          a.next_start ∙ ground (arith, a.start_read, a.length_read) in
        (omega arith, omega arith, omega arith)

    -- Where the state of the chain can be read and the recorded use is a number: a job of a provider
    -- for whom the chain has no ledger of capacity is delayed, and nothing is submitted, watched or
    -- numbered.
    pub unstaked-delayed :
        (world : World) (provider_id job_id : String) (info : CapacityInfo) (used : ℕ)
        (d : TransactionData) (p : Publisher K H S)
        → world.capacity_info ≡ capacity_info node provider_id
        → capacity_info node provider_id ≡ resolved info
        → node.capacity_ledger provider_id ≡ resolved none
        → used_now K H S world p info ≡ some used
        → let out = process K H S world job_id d p in
          (out.0 ≡ rejected delayed_error) × Same K H S world p out.1
    unstaked-delayed world provider_id job_id info used d p asked e none_there u =
        let a = capacity_info-Answered provider_id info e in
        let spent : info.remaining_capacity ≡ 0 =
          a.remaining ∙ no_ledger a.ledger (ground (arith, a.ledger_read)) in
        process-delayed K H S world job_id d p
          (check_capacity-spent K H S world p info used (asked ∙ e) u spent)
