-- ===== src/Core/SyncManager/Once.antt =====
-- Who may bootstrap a server, and how often: HandleBootstrap of internal/core/sync_manager.go.
use eswim.Base.{ℕ, ◌<◌, ◌≡◌, true, false, List, [], ◌∷◌, length, arith}
use eswim.Proto.NetIp.{net_ip_equal}
use eswim.Proto.Message.{Sync}
use eswim.Core.SyncManager.{Delegate, close, handle_bootstrap}

empty_ne_equal : (source : List ℕ) → 0 < length source → net_ip_equal source [] ≡ false
unfolding net_ip_equal
empty_ne_equal source h = ground (arith, h)

-- A bootstrap from an accepted source ends the acceptance: the next one, from wherever it comes, closes
-- the connection and changes nothing, unless SetBootstrapSource is called in between.
pub handle_bootstrap-refused :
    {S : Type 0} (d : Delegate S) (m m' : Sync) (source source' accept : List ℕ) (s : S)
    → net_ip_equal source accept ≡ true
    → 0 < length source'
    → let (accept', s') = (handle_bootstrap d m source accept s).0 in
      handle_bootstrap d m' source' accept' s' ≡ ((accept', s'), close ∷ [])
unfolding handle_bootstrap
handle_bootstrap-refused d m m' source source' accept s h n =
    let e = empty_ne_equal source' n in rw (h) (rw e)

-- A server that has accepted no source yet refuses every bootstrap.
pub handle_bootstrap-nil :
    {S : Type 0} (d : Delegate S) (m : Sync) (source : List ℕ) (s : S)
    → 0 < length source
    → handle_bootstrap d m source [] s ≡ (([], s), close ∷ [])
unfolding handle_bootstrap
handle_bootstrap-nil d m source s n = rw (empty_ne_equal source n)
