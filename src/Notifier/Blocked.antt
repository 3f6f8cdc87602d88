-- ===== src/Notifier/Blocked.antt =====
-- A block at which every scan of the notifier ends.
use account_service.Common.{◌≡◌}
use account_service.Redis.{Keyspace, IsKeyspace}
use account_service.Redis.WatchList.{WatchList}
use account_service.Notifier.{Notifier, Chain, base_last_seen, get_last_seen_block_number}

module _ (K : Keyspace) (H : WatchList) (chain : Chain) (L : IsKeyspace K) where
  -- As far as the scans go, nothing has moved.
  pub record IsUnmoved (w w' : Notifier K H) : Type 0 where
    pub watch_list : w'.watch_list ≡ w.watch_list
    pub recorded : base_last_seen K H chain w'.cache ≡ base_last_seen K H chain w.cache
    pub begins :
        (get_last_seen_block_number K H chain w').0 ≡ (get_last_seen_block_number K H chain w).0
