-- ===== src/Node/Sends.antt =====
-- src/ipc/wallet.rs: what a send does to the wallet, and what it leaves alone.
use kernel_node.Prelude.{
  ℕ, ◌≡◌, refl, inl, inr, true, none, some, List, arith, Bool-cases, Option-cases, nat_eq,
}
use kernel_node.Prelude.Reader.{ok, and_then, and_then-ok, Result-cases}
use kernel_node.Wallet.Scanning.{SilentPayments}
use kernel_node.Wallet.Coins
use kernel_node.Wallet.Keys.{KeyMaking}
use kernel_node.Wallet.Sending.{previous_outputs, SendError, is_user_error, Payment, Spending}
use kernel_node.Wallet.Sending.Recipients.{parse, Recipient}
use kernel_node.Wallet.Sending.Build.{build_transaction}
use kernel_node.Node.Requests.{
  FloatRates, Channel, try_send, WalletIpcInterface, SendReply, sent, refused, failure,
  send_to_address, submit, bad_rate,
}

try_send-some :
    {A : Type 0} (c c' : Channel A) (a : A)
    → try_send c a ≡ some c'
    → (c.waiting ≡ none) × (c'.waiting ≡ some a)
unfolding try_send
try_send-some c c' a e = elim (Option-cases c.waiting) [
  | inl empty ↦ (empty, ground (arith, e, empty))
  | inr (b, full) ↦ absurd (ground (arith, e, full))
]

module _ (𝓢 : SilentPayments) (𝓚 : KeyMaking 𝓢) (𝓣 : Spending 𝓢 𝓚) (𝓕 : FloatRates) where
  -- A send that answered with this transaction: it was built from the wallet for some recipient, the
  -- channel was empty and holds it now, and its coins are reserved.
  pub record IsSent (before : WalletIpcInterface 𝓢 𝓚 𝓣 𝓕) (amount : ℕ) (tx : Payment)
      (after : WalletIpcInterface 𝓢 𝓚 𝓣 𝓕) : Type 0 where
    pub recipient : Recipient 𝓢 𝓚 𝓣
    pub fee_rate : ℕ
    pub long_term_fee_rate : ℕ
    pub built :
        build_transaction 𝓢 𝓚 𝓣 before.wallet recipient amount fee_rate long_term_fee_rate ≡ ok tx
    pub reserved : after.wallet ≡ Coins.reserve_coins 𝓢 before.wallet (previous_outputs tx.input)
    pub was_empty : before.broadcast_tx.waiting ≡ none
    pub waits : after.broadcast_tx.waiting ≡ some tx

  -- What a send comes to: it is sent, or nothing has changed.
  pub data Outcome (before : WalletIpcInterface 𝓢 𝓚 𝓣 𝓕) (amount : ℕ)
      : WalletIpcInterface 𝓢 𝓚 𝓣 𝓕 → SendReply 𝓢 𝓚 𝓣 𝓕 → Type 0 where
    went_out :
        {after : WalletIpcInterface 𝓢 𝓚 𝓣 𝓕} {tx : Payment}
        → IsSent before amount tx after
        → Outcome before amount after (sent tx)
    user_error : (e : SendError) → is_user_error e ≡ true → Outcome before amount before (refused e)
    other_error : (f : _) → Outcome before amount before (failure f)

  submit-Outcome :
      (before : WalletIpcInterface 𝓢 𝓚 𝓣 𝓕) (amount fee ltf : ℕ) (tx : Payment)
      (r : Recipient 𝓢 𝓚 𝓣)
      → build_transaction 𝓢 𝓚 𝓣 before.wallet r amount fee ltf ≡ ok tx
      → Outcome before amount (submit 𝓢 𝓚 𝓣 𝓕 before tx).0 (submit 𝓢 𝓚 𝓣 𝓕 before tx).1
  unfolding submit
  submit-Outcome before amount fee ltf tx r built =
      elim (Option-cases (try_send before.broadcast_tx tx)) [
        | inl unavailable ↦ rw (unavailable, submit) (other_error _)
        | inr (channel, accepted) ↦
            let (empty, waiting) = try_send-some before.broadcast_tx channel tx accepted in
            rw (accepted, submit)
              (went_out (record {
                recipient = r;
                fee_rate = fee;
                long_term_fee_rate = ltf;
                built = built;
                reserved = refl;
                was_empty = empty;
                waits = waiting;
              }))
      ]

  -- Whatever the address, the amount and the rates: a send either answers with a transaction, which
  -- was built from the wallet as it was, now waits in the channel, which was empty, and has its coins
  -- reserved; or it answers with a user's error or a failure, and the wallet and the channel are as
  -- they were.
  pub send_to_address-Outcome :
      (before : WalletIpcInterface 𝓢 𝓚 𝓣 𝓕) (address : List ℕ) (amount : ℕ) (rate ltr : 𝓕.Rate)
      → Outcome before amount
          (send_to_address 𝓢 𝓚 𝓣 𝓕 before address amount rate ltr).0
          (send_to_address 𝓢 𝓚 𝓣 𝓕 before address amount rate ltr).1
  unfolding send_to_address
  send_to_address-Outcome before address amount rate ltr =
      elim (Bool-cases (bad_rate 𝓢 𝓚 𝓣 𝓕 rate)) [
        | inl bad ↦ rw (bad, send_to_address) (other_error _)
        | inr good ↦ elim (Bool-cases (bad_rate 𝓢 𝓚 𝓣 𝓕 ltr)) [
          | inl bad ↦ rw (good, bad, send_to_address) (other_error _)
          | inr fine ↦
              elim (Result-cases (
                and_then (parse 𝓢 𝓚 𝓣 address before.wallet.network) (λ r.
                  build_transaction 𝓢 𝓚 𝓣 before.wallet r amount (𝓕.sat_per_kwu rate)
                    (𝓕.sat_per_kwu ltr)))) [
                      | inl (tx, built) ↦
                          let (r, _, e) =
                            and_then-ok (parse 𝓢 𝓚 𝓣 address before.wallet.network)
                              (λ r.
                                build_transaction 𝓢 𝓚 𝓣 before.wallet r amount (𝓕.sat_per_kwu rate)
                                  (𝓕.sat_per_kwu ltr))
                              built in
                          rw (good, fine, built, send_to_address)
                            (submit-Outcome before amount _ _ tx r e)
                      | inr (x, not_built) ↦ elim (Bool-cases (is_user_error x)) [
                        | inl user ↦
                            rw (good, fine, not_built, user, send_to_address) (user_error x user)
                        | inr other ↦
                            rw (good, fine, not_built, other, send_to_address) (other_error _)
                      ]
                    ]
        ]
      ]
