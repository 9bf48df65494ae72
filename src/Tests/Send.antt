-- ===== src/Tests/Send.antt =====
-- A wallet that sends: the crates are toys that keep their laws, and the theorems are applied to them.
use mathlib.Core.List.Sublistᴰ
use mathlib.Core.List.Permᴰ
use kernel_node.Prelude.{
  ℕ, ◌+◌, ◌-◌, ◌*◌, ◌≤◌, ◌≡◌, refl, sym, ap, inl, inr, true, false, none, some, List, ◌∷◌, map,
  arith, ℕ_discrete, replicate, ltb, if◌then◌else◌, Bool-cases, nat_eq, [],
}
use kernel_node.Prelude.Slices.{same_bytes, same_bytes_self, same_bytes-eq, sum}
use kernel_node.Prelude.Choices.{total}
use kernel_node.Prelude.Reader.{Result, ok, err}
use kernel_node.Prelude.HashSet.{contains}
use kernel_node.Prelude.HashMap
use kernel_node.Wallet.Scanning.{outpoint_eq, outpoint-discrete}
use kernel_node.Wallet.Coins
use kernel_node.Wallet.Coins.{Wallet, SilentPaymentKeys}
use kernel_node.Wallet.Keys.{KeyMaking, secret, SilentPaymentKeysFile, to_bytes, from_bytes}
use kernel_node.Wallet.Keys.RoundTrip.{HasKeyBytes, from_bytes-to_bytes, from_bytes-ok}
use kernel_node.Wallet.Sending
use kernel_node.Wallet.Sending.{Spending, SpendableCoin, Payment, coin_values}
use kernel_node.Wallet.Sending.Recipients
use kernel_node.Wallet.Sending.Recipients.{address, silent_payment}
use kernel_node.Wallet.Sending.Selection
use kernel_node.Wallet.Sending.Build
use kernel_node.Wallet.Sending.Build.{build_transaction}
use kernel_node.Wallet.Sending.Free.{HasSelection, coin_value}
use kernel_node.Wallet.Sending.Payments.{IsPayment, build_transaction-Payment}
use kernel_node.Node.Requests
use kernel_node.Node.Requests.{FloatRates, WalletIpcInterface, send_to_address, sent}
use kernel_node.Node.Sends.{Outcome, send_to_address-Outcome}
use kernel_node.Node.Reservations.{Node, here, after, sends, takes, IsKept}
use kernel_node.Node.Reservations.Kept.{Reach-Kept}
use kernel_node.Tests.Wallet.{generous, wallet, ours}

abbrev pub key : List ℕ
key = replicate 32 7

abbrev pub read_key : List ℕ → Result (Unit {0}) (Unit {0})
read_key bytes = if same_bytes bytes key then ok tt else err tt

abbrev pub toy_keys : KeyMaking generous
toy_keys = record {
  XOnlyPublicKey = Unit {0};
  Code = Unit {0};
  ReceiverError = Unit {0};
  KeyError = Unit {0};
  secret_bytes = λ k. key;
  secret_from_slice = read_key;
  xonly_bytes = λ k. key;
  xonly_from_slice = read_key;
  x_only_public_key = λ k. (tt, false);
  even_key = λ k. tt;
  negate = λ k. tt;
  public_key = λ k. tt;
  label = λ k n. tt;
  receiver = λ scan spend label network. ok tt;
  receiving_code = λ r. tt;
  change_code = λ r. tt;
  show_code = λ c. [];
}

read_key-key : read_key key ≡ ok tt
read_key-key = rw (same_bytes_self key) refl

read_key-ok : (b : List ℕ) (k : Unit {0}) → read_key b ≡ ok k → key ≡ b
read_key-ok b k e = elim (Bool-cases (same_bytes b key)) [
  | inl same ↦ sym (same_bytes-eq b key same)
  | inr other ↦ absurd (ground (arith, e, other))
]

pub toy_keys_law : HasKeyBytes generous toy_keys
toy_keys_law = record {
  secret_length = λ k. refl;
  secret_read = λ k. read_key-key;
  secret_written = read_key-ok;
  xonly_length = λ k. refl;
  xonly_read = λ k. read_key-key;
  xonly_written = read_key-ok;
}

abbrev pub keys_file : SilentPaymentKeysFile generous toy_keys
keys_file = record { scan_key = tt; spend_key = secret tt }

from_bytes-to_bytes_example :
    from_bytes generous toy_keys (to_bytes generous toy_keys keys_file) ≡ ok keys_file
from_bytes-to_bytes_example = from_bytes-to_bytes generous toy_keys toy_keys_law keys_file

from_bytes-ok_example : to_bytes generous toy_keys keys_file ≡ to_bytes generous toy_keys keys_file
from_bytes-ok_example =
    from_bytes-ok generous toy_keys toy_keys_law (to_bytes generous toy_keys keys_file) keys_file
      (from_bytes-to_bytes generous toy_keys toy_keys_law keys_file)

-- All coins are spent, ten goes to the fee, and the rest is change.
abbrev toy : Spending generous toy_keys
toy = record {
  FeeRate = ℕ;
  Selection = Unit {0};
  Address = Unit {0};
  Material = Unit {0};
  PartialSecret = Unit {0};
  material_eq = record { dec = λ a b. yes refl };
  parse_code = λ s. none;
  code_network = λ c. Coins.regtest;
  parse_address = λ s. ok tt;
  has_network = λ a n. true;
  script_pubkey = λ a. 81 ∷ [];
  minimal_non_dust = λ s. 3;
  p2tr_tweaked = λ k. k ∷ [];
  x_only = λ k. 9;
  keyspend_output_weight = 172;
  cs_feerate = λ r. r;
  run_bnb = λ values t p f rounds. if ltb (sum values) t.amount then none else some tt;
  select_until_target_met = λ values t. err (t.amount - sum values);
  drain = λ values s t p.
      if ltb (sum values) (t.amount + 10) then none else some (sum values - (t.amount + 10));
  apply_selection = λ s coins. coins;
  shuffle_coins = λ coins. coins;
  shuffle_outputs = λ outputs. outputs;
  add_tweak = λ k t. some tt;
  material = λ c. tt;
  calculate_partial_secret = λ keys outpoints. some tt;
  generate_recipient_pubkeys = λ ms p. some (map (λ m. (m, 5 ∷ [])) ms);
  lock_time_from_height = λ h. some h;
  taproot_signature = λ tx i spent k. some (1 ∷ []);
}

sum-coin_values : (coins : List SpendableCoin) → sum (coin_values coins) ≡ total coin_value coins
sum-coin_values [] = refl
sum-coin_values (c ∷ coins) = ap (◌+◌ c.coin.value) (sum-coin_values coins)

toy_law : HasSelection generous toy_keys toy
toy_law = record {
  applied = λ s coins. Sublistᴰ.refl coins;
  bnb_covers = λ coins t p f rounds s e. ground (arith, sum-coin_values coins, e);
  greedy_covers = λ coins t p s e. absurd (ground (arith, e));
  coins_shuffled = λ coins. Permᴰ.refl coins;
  outputs_shuffled = λ outputs. Permᴰ.refl outputs;
}

abbrev payment : Payment
payment = record {
  lock_time = 3;
  input = record { previous_output = ours; witness = 1 ∷ [] } ∷ [];
  output =
      record { value = 20; script_pubkey = 81 ∷ [] }
      ∷ record { value = 20; script_pubkey = 5 ∷ [] }
      ∷ [];
}

build_run : build_transaction generous toy_keys toy wallet (address tt) 20 1 1 ≡ ok payment
unfolding build_transaction Build.build_from_coins Build.assemble Build.unsigned_payment
    Build.target_of Build.change_policy_of Selection.select_coins Selection.choose
    Selection.signing_keys Selection.derive Selection.change_output Selection.sign
    Selection.sp_addrs Recipients.sp_output_script Recipients.recipient_dust
    Recipients.recipient_weight Recipients.recipient_script Sending.spendable_coins
    Sending.set_witnesses Sending.output_weight HashMap.get contains outpoint-discrete ℕ_discrete
build_run = refl

-- The same to a silent payment's code.
abbrev sp_payment : Payment
sp_payment = record payment {
  output =
      record { value = 20; script_pubkey = 5 ∷ [] }
      ∷ record { value = 20; script_pubkey = 5 ∷ [] }
      ∷ [];
}

sp_build_run :
    build_transaction generous toy_keys toy wallet (silent_payment tt) 20 1 1 ≡ ok sp_payment
unfolding build_transaction Build.build_from_coins Build.assemble Build.unsigned_payment
    Build.target_of Build.change_policy_of Selection.select_coins Selection.choose
    Selection.signing_keys Selection.derive Selection.change_output Selection.sign
    Selection.sp_addrs Recipients.sp_output_script Recipients.recipient_dust
    Recipients.recipient_weight Recipients.recipient_script Sending.spendable_coins
    Sending.set_witnesses Sending.output_weight HashMap.get contains outpoint-discrete ℕ_discrete
sp_build_run = refl

wallet-IsTable : HashMap.IsTable wallet.utxos
unfolding HashMap.get
wallet-IsTable = (refl, tt)

build_transaction-Payment_example :
    (key : Unit {0}) × (keys : SilentPaymentKeys generous) × (wallet.spend_secret ≡ some key)
    × (wallet.keys ≡ some keys)
    × (Recipients.recipient_dust generous toy_keys toy key (silent_payment tt) ≤ 20)
    × IsPayment generous toy_keys toy wallet key tt (silent_payment tt) 20 sp_payment
build_transaction-Payment_example =
    build_transaction-Payment generous toy_keys toy toy_law wallet (silent_payment tt) 20 1 1
      sp_payment wallet-IsTable sp_build_run

abbrev rates : FloatRates
rates = record {
  Rate = ℕ;
  is_finite = λ r. true;
  is_negative = λ r. false;
  sat_per_kwu = λ r. r * 250;
}

abbrev ipc : WalletIpcInterface generous toy_keys toy rates
ipc = record { wallet = wallet; broadcast_tx = record { waiting = none; connected = true } }

send_to_address-Outcome_example :
    Outcome generous toy_keys toy rates ipc 20
      (send_to_address generous toy_keys toy rates ipc (7 ∷ []) 20 1 1).0
      (send_to_address generous toy_keys toy rates ipc (7 ∷ []) 20 1 1).1
send_to_address-Outcome_example =
    send_to_address-Outcome generous toy_keys toy rates ipc (7 ∷ []) 20 1 1

abbrev start : Node generous toy_keys toy rates
start = record { ipc = ipc; broadcasting = none; broadcast = [] }

abbrev sent_once : Node generous toy_keys toy rates
sent_once = record start {
  ipc = (send_to_address generous toy_keys toy rates ipc (7 ∷ []) 20 1 1).0;
}

start-Kept : IsKept generous toy_keys toy rates start
start-Kept = record { table = wallet-IsTable; distinct = tt; held = tt }

sent_run : sent_once.ipc.broadcast_tx.waiting ≡ some payment
unfolding send_to_address Requests.submit Requests.try_send Recipients.parse build_transaction
    Build.build_from_coins Build.assemble Build.unsigned_payment Build.target_of
    Build.change_policy_of Selection.select_coins Selection.choose Selection.signing_keys
    Selection.derive Selection.change_output Selection.sign Selection.sp_addrs
    Recipients.sp_output_script Recipients.recipient_dust Recipients.recipient_weight
    Recipients.recipient_script Sending.spendable_coins Sending.set_witnesses Sending.output_weight
    HashMap.get contains outpoint-discrete ℕ_discrete
sent_run = refl

Reach-Kept_example : IsKept generous toy_keys toy rates (record sent_once {
  ipc = record sent_once.ipc {
    broadcast_tx = record sent_once.ipc.broadcast_tx { waiting = none };
  };
  broadcasting = some payment;
})
Reach-Kept_example =
    Reach-Kept generous toy_keys toy rates toy_law start _ start-Kept
      (after (after here (sends start (7 ∷ []) 20 1 1)) (takes sent_once payment sent_run refl))
