-- ===== src/Registry/Tests.antt =====
-- Two clients of server/rtimvServer.cpp: one that is used, and one that is long gone.
use rtimv.Common.{ℕ, zero, suc, ◌≡◌, ◌⊎◌, refl, true, false, [], ◌∷◌, none, some, arith}
use rtimv.Registry.{
  Registry, Limits, begun, new_thread, insert_client, prepare, sweep, scan, evict, is_expired,
  is_busy,
}
use rtimv.Registry.Threads.{IsRegistered}
use rtimv.Registry.Calls.{rest, next, client_inserted, Sound, prepare-Sound}
use rtimv.Registry.Eviction.{round_spares, late_call_lost}
use rtimv.Registry.Scans.{any_idle}
use rtimv.Registry.Sweeps.{rounds, rounds_clear}

abbrev empty : Registry
empty = record { clients = []; thread = λ i. new_thread 0; next = 0; victim = none }

abbrev limits : Limits
limits = record { client_sleep = 10; client_disconnect = 120 }

abbrev unpruned : ℕ → ℕ
unpruned i = 0

abbrev two_clients : Registry
two_clients = record {
  clients = record { peer = 70; thread = some 1 } ∷ record { peer = 80; thread = some 0 } ∷ [];
  thread = λ i. elim i [ zero ↦ new_thread 1 | suc n ↦ new_thread 200 ];
  next = 2;
  victim = none;
}

two_clients-IsRegistered : IsRegistered two_clients
two_clients-IsRegistered = record {
  distinct = (refl, refl, (refl, refl, tt));
  live = (refl, (refl, tt));
}

abbrev inserted : Registry
inserted = insert_client 1 80 empty

prepare-Sound_example : Sound inserted (prepare 5 80 inserted).1
prepare-Sound_example = prepare-Sound 5 80 (next rest (client_inserted empty 1 80)) refl

goes_on : (prepare 5 80 inserted).1 ≡ begun 0
unfolding prepare insert_client
goes_on = refl

one_deleted : ((evict (sweep limits 205 unpruned two_clients)).thread 0).deleted ≡ true
unfolding evict scan
one_deleted = refl

one_left :
    (evict (sweep limits 205 unpruned two_clients)).clients
    ≡ record { peer = 70; thread = some 1 } ∷ []
unfolding evict scan
one_left = refl

round_spares_example :
    ((two_clients.thread 0).deleted ≡ true)
    ⊎ ((is_expired limits 205 ((sweep limits 205 unpruned two_clients).thread 0) ≡ true)
        × (is_busy ((sweep limits 205 unpruned two_clients).thread 0) ≡ false))
round_spares_example =
    round_spares limits 205 unpruned two_clients 0 two_clients-IsRegistered refl one_deleted

rounds_clear_example :
    any_idle limits 205 unpruned
      (rounds limits 205 unpruned 2 two_clients).thread
      (rounds limits 205 unpruned 2 two_clients).clients
    ≡ false
rounds_clear_example =
    rounds_clear limits 205 unpruned 2 two_clients two_clients-IsRegistered refl (omega arith)

-- The loop has chosen peer 80.
abbrev chosen : Registry
chosen = record two_clients { victim = some (record { peer = 80; without_thread = false }) }

late_call_lost_example :
    ((prepare 205 80 chosen).1 ≡ begun 0)
    × (((evict (prepare 205 80 chosen).0).thread 0).deleted ≡ true)
    × (((evict (prepare 205 80 chosen).0).thread 0).active_rpc ≡ 1)
late_call_lost_example =
    late_call_lost 205 80 0 (record { peer = 80; thread = some 0 }) chosen refl refl refl refl
