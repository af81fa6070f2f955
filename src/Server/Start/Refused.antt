-- ===== src/Server/Start/Refused.antt =====
-- What becomes of a server whose client was not accepted.
use knockout_kraken.Base.{ℕ, suc, ◌≡◌, arith, true, false}
use knockout_kraken.Socket.{Sockets}
use knockout_kraken.Server.Ipc.{IpcServer, wait_for_client}
use knockout_kraken.Server.Routine.{Setting, Shared, ◌>>◌, join, tick_once, fault}
use knockout_kraken.Server.Routine.Axil.{axil_round}
use knockout_kraken.Server.Routine.Axi.{axi_round}
use knockout_kraken.Server.Routine.Rounds.{failed_rounds}

refused-error :
    {W : Type 0} (os : Sockets W) (s s' : IpcServer) (w w' : W)
    → wait_for_client os s w ≡ (false, s', w')
    → s'.error ≡ true
unfolding wait_for_client
refused-error os s s' w w' h = ground arith

-- When waitForClient has returned false, which main ignores, the first round of either routine over
-- its server receives nothing: it reports an error to the main thread, waits for a tick, and stops
-- serving. The fuel is not 0.
pub refused_client :
    {V W : Type 0} (x : Setting V W) (uninit : ℕ → ℕ) (s : IpcServer) (w w' : W) (st : Shared V W)
    {n : ℕ}
    → x.fuel ≡ suc n
    → wait_for_client x.os s w ≡ (false, st.ipc, w')
    → (axil_round x uninit st ≡ (tick_once x >> join) (fault x st))
      × (axi_round x uninit st ≡ (tick_once x >> join) (fault x st))
refused_client x uninit s w w' st f h =
    failed_rounds x uninit st f (refused-error x.os s st.ipc w w' h)
