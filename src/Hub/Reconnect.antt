-- ===== src/Hub/Reconnect.antt =====
-- What the end of a connection does to the number that it registered.
use kanibako.Prelude.{ℕ, ◌≡◌, refl, Bool, true, false, Option, none, some, [], ◌∷◌, arith, Text}
use kanibako.Prelude.Int.{ℤ}
use kanibako.Prelude.Dict.{Dict}
use kanibako.Hub.State.{Hub}
use kanibako.Hub.Containers.{logging}
use kanibako.Hub.Launch.{HelperContext}
use kanibako.Hub.Dispatch.{World, connection, connect, disconnect, register, unregister}
use kanibako.Hub.Reader.{Parsed, finish}

connection-connect : (n : ℤ) (conn : ℕ) (d : Dict ℤ ℕ) → connection n (connect n conn d) ≡ some conn
unfolding connection connect
connection-connect n conn [] = ground arith
connection-connect n conn ((k, c) ∷ rest) = ground (arith, connection-connect n conn rest)

connection-disconnect : (n : ℤ) (d : Dict ℤ ℕ) → connection n (disconnect n d) ≡ none
unfolding connection disconnect
connection-disconnect n [] = refl
connection-disconnect n ((k, c) ∷ rest) = ground (arith, connection-disconnect n rest)

module _ {P J : Type 0} (world : World P J) (context : Option (HelperContext P))
    (loads : Text → Parsed J) where
  -- When a helper registers its number on a connection `b` while an older connection `a` holds it,
  -- messages go to `b`; but when the reader of `a` ends, the number is taken out of the table, and
  -- the helper, still connected, is no longer reached.
  pub finish-reconnected :
      (has_log : Bool) (n : ℤ) (a b : ℕ) (hub : Hub J)
      → (connection n (register J n b (register J n a hub)).connections ≡ some b)
        × (connection n
              (finish world has_log context loads a
                (some n, register J n b (register J n a hub))).connections
            ≡ none)
  unfolding register finish unregister logging
  finish-reconnected true n a b hub = (
    connection-connect n b (connect n a hub.connections),
    connection-disconnect n (connect n b (connect n a hub.connections)),
  )
  finish-reconnected false n a b hub = (
    connection-connect n b (connect n a hub.connections),
    connection-disconnect n (connect n b (connect n a hub.connections)),
  )
