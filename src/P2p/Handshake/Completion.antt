-- ===== src/P2p/Handshake/Completion.antt =====
-- What a completed handshake has checked and agreed on.
use kernel_node.P2p.Message.{fee_filter, get_addr}
use kernel_node.Prelude.{
  ℕ, ◌≤◌, min, ◌≡◌, refl, sym, ap, ◌∙◌, ◌≢◌, Bool, true, Option, none, some, List, ◌∷◌, ◌++◌, arith,
  if◌then◌else◌, nat_eq, [],
}
use kernel_node.Prelude.Reader.{ok}
use kernel_node.P2p.Message.{
  NetworkMessage, VersionMessage, verack, send_addr_v2, wtxid_relay, send_headers, send_cmpct,
}
use kernel_node.P2p.Handshake.{
  ConnectionConfig, Preferences, InitializedHandshake, CompletedHandshake, accept_version,
  negotiate, negotiate_loop, min_peer_proto_version, no_preferences, suggested_messages,
  closing_messages, handshake, start_handshake, version, build_our_version, Result, Error, err,
}

module _ {H B : Type 0} (has : ℕ → ℕ → Bool) (command : NetworkMessage H B → List ℕ) where
  -- What the peer's messages, up to the one that completes the handshake, make of its preferences.
  unfoldable pub preferences : Preferences → List (Option (NetworkMessage H B)) → Preferences
  preferences p [] = p
  preferences p (some wtxid_relay ∷ incoming) = preferences (record p { sendwtxid = true }) incoming
  preferences p (some send_addr_v2 ∷ incoming) =
      preferences (record p { sendaddrv2 = true }) incoming
  preferences p (some (send_cmpct cmpct) ∷ incoming) =
      preferences (record p { sendcmpct = cmpct }) incoming
  preferences p (some send_headers ∷ incoming) =
      preferences (record p { sendheaders = true }) incoming
  preferences p (message ∷ incoming) = preferences p incoming

  -- A loop that completes has read the messages `before` and then a `verack`.
  abbrev Completes :
      InitializedHandshake
      → List (Option (NetworkMessage H B))
      → List (NetworkMessage H B)
      → CompletedHandshake
      → Type 0
  Completes h incoming sent done =
      (before rest : List (Option (NetworkMessage H B))) × (incoming ≡ before ++ some verack ∷ rest)
      × (sent ≡ closing_messages has command h)
      × (done ≡ record {
        feeler = h.feeler;
        their_preferences = preferences h.their_preferences before;
      })

  later :
      (m : Option (NetworkMessage H B)) (h : InitializedHandshake) (p : Preferences)
      (incoming : List (Option (NetworkMessage H B))) (sent : List (NetworkMessage H B))
      (done : CompletedHandshake)
      → ((before : List (Option (NetworkMessage H B)))
          → preferences h.their_preferences (m ∷ before) ≡ preferences p before)
      → Completes (record h { their_preferences = p }) incoming sent done
      → Completes h (m ∷ incoming) sent done
  unfolding closing_messages
  later m h p incoming sent done heard (before, rest, split, closed, agreed) = (
    m ∷ before,
    rest,
    ap (◌∷◌ m) split,
    closed,
    agreed ∙ ap (λ q. record { feeler = h.feeler; their_preferences = q }) (sym (heard before)),
  )

  negotiate_loop-Completes :
      (h : InitializedHandshake) (incoming : List (Option (NetworkMessage H B)))
      (sent : List (NetworkMessage H B)) (done : CompletedHandshake)
      → negotiate_loop has command h incoming ≡ (sent, ok done)
      → Completes h incoming sent done
  unfolding negotiate_loop negotiate preferences
  negotiate_loop-Completes h [] sent done e = absurd cc
  negotiate_loop-Completes h (none ∷ incoming) sent done e =
      later none h h.their_preferences incoming sent done (λ before. refl)
        (negotiate_loop-Completes h incoming sent done e)
  negotiate_loop-Completes h (some verack ∷ incoming) sent done e =
      ([], incoming, refl, ground arith, ground arith)
  negotiate_loop-Completes h (some wtxid_relay ∷ incoming) sent done e =
      let p = record h.their_preferences { sendwtxid = true } in
      later (some wtxid_relay) h p incoming sent done (λ before. refl)
        (negotiate_loop-Completes (record h { their_preferences = p }) incoming sent done e)
  negotiate_loop-Completes h (some send_addr_v2 ∷ incoming) sent done e =
      let p = record h.their_preferences { sendaddrv2 = true } in
      later (some send_addr_v2) h p incoming sent done (λ before. refl)
        (negotiate_loop-Completes (record h { their_preferences = p }) incoming sent done e)
  negotiate_loop-Completes h (some (send_cmpct cmpct) ∷ incoming) sent done e =
      let p = record h.their_preferences { sendcmpct = cmpct } in
      later (some (send_cmpct cmpct)) h p incoming sent done (λ before. refl)
        (negotiate_loop-Completes (record h { their_preferences = p }) incoming sent done e)
  negotiate_loop-Completes h (some send_headers ∷ incoming) sent done e =
      let p = record h.their_preferences { sendheaders = true } in
      later (some send_headers) h p incoming sent done (λ before. refl)
        (negotiate_loop-Completes (record h { their_preferences = p }) incoming sent done e)
  negotiate_loop-Completes h (some message ∷ incoming) sent done e = absurd cc

  -- What holds of a peer's version that is accepted.
  abbrev pub IsAcceptable : ConnectionConfig → ℕ → VersionMessage → Type 0
  IsAcceptable c nonce v =
      (v.nonce ≢ nonce)
      × (c.expected_version ≤ v.version)
      × (min_peer_proto_version ≤ v.version)
      × (has v.services c.expected_services ≡ true)

  -- What the node sends last.
  abbrev pub closing : ConnectionConfig → List (NetworkMessage H B)
  closing c =
      verack ∷ send_cmpct c.cmpct ∷ fee_filter c.fee ∷ (if c.asks_addr then get_addr ∷ [] else [])

  accept_version-ok :
      (c : ConnectionConfig) (unix_time : ℕ) (v : VersionMessage) (nonce : ℕ)
      (h : InitializedHandshake) (messages : List (NetworkMessage H B))
      → accept_version has command c unix_time v nonce ≡ ok (h, messages)
      → IsAcceptable c nonce v
        × (h.their_preferences ≡ no_preferences)
        × (h.feeler.effective_version ≡ min c.our_version v.version)
        × (messages ≡ suggested_messages has command (min c.our_version v.version))
        × (closing_messages has command h ≡ closing c)
  unfolding accept_version closing_messages
  accept_version-ok c unix_time v nonce h messages e =
      (ground arith, ground arith, ground arith, ground arith, ground arith)

  -- A handshake completes only on a peer whose first message is a version with another nonce than
  -- ours, at least the version expected and 31800, and with the services expected, and that sends a
  -- `verack` later. The preferences are those it sent before that; the effective version is the lower
  -- of the two; the node sends its version, the offers for the effective version, and then its
  -- `verack` and its own preferences.
  pub handshake-ok :
      (c : ConnectionConfig) (unix_time nonce : ℕ) (incoming : List (Option (NetworkMessage H B)))
      (sent : List (NetworkMessage H B)) (done : CompletedHandshake)
      → handshake has command c unix_time nonce incoming ≡ (sent, ok done)
      → (v : VersionMessage) × (before rest : List (Option (NetworkMessage H B))) × (incoming
          ≡ some (version v) ∷ before ++ some verack ∷ rest)
        × IsAcceptable c nonce v
        × (done.their_preferences ≡ preferences no_preferences before)
        × (done.feeler.effective_version ≡ min c.our_version v.version)
        × (sent
            ≡ (version (build_our_version c unix_time nonce)
                ∷ suggested_messages has command (min c.our_version v.version))
              ++ closing c)
  unfolding handshake start_handshake
  handshake-ok c unix_time nonce [] sent done e = absurd cc
  handshake-ok c unix_time nonce (none ∷ incoming) sent done e = absurd cc
  handshake-ok c unix_time nonce (some (version v) ∷ incoming) sent done e =
      go (accept_version has command c unix_time v nonce) refl
    where
      go :
          (o : Result Error (InitializedHandshake × List (NetworkMessage H B)))
          → accept_version has command c unix_time v nonce ≡ o
          → (v' : VersionMessage) × (before rest : List (Option (NetworkMessage H B))) × (some
                  (version v)
                ∷ incoming
              ≡ some (version v') ∷ before ++ some verack ∷ rest)
            × IsAcceptable c nonce v'
            × (done.their_preferences ≡ preferences no_preferences before)
            × (done.feeler.effective_version ≡ min c.our_version v'.version)
            × (sent
                ≡ (version (build_our_version c unix_time nonce)
                    ∷ suggested_messages has command (min c.our_version v'.version))
                  ++ closing c)
      go (err x) q = absurd (ground arith)
      go (ok (h, messages)) q =
          let (good, fresh, low, offers, last) =
            accept_version-ok c unix_time v nonce h messages q in
          let run = negotiate_loop has command h incoming in
          let whole = rw (q, handshake, start_handshake) at e in
          let (before, rest, split, closed, agreed) =
            negotiate_loop-Completes h incoming run.0 done
              (ap (λ end. (run.0, end)) (ap (λ x. x.1) whole)) in
          (
            v,
            before,
            rest,
            ap (◌∷◌ (some (version v))) split,
            good,
            ap (λ d. d.their_preferences) agreed ∙ ap (λ p. preferences p before) fresh,
            ap (λ d. d.feeler.effective_version) agreed ∙ low,
            sym (ap (λ x. x.0) whole) ∙ rw (offers, closed, last) refl,
          )
  handshake-ok c unix_time nonce (some message ∷ incoming) sent done e = absurd cc
