-- ===== src/Tests/Wallet.antt =====
-- The theorems on the wallet, at a block that spends one coin and pays another.
use mathlib.Core.Bool.{false≢true}
use kernel_node.Prelude.{
  ◌≡◌, refl, inl, true, none, some, List, ◌∷◌, map, ℕ_discrete, length, nat_eq, [],
}
use kernel_node.Prelude.HashSet.{contains}
use kernel_node.Prelude.HashMap
use kernel_node.Prelude.HashMap.{HashMap}
use kernel_node.Wallet.Scanning
use kernel_node.Wallet.Scanning.{
  OutPoint, outpoint_eq, outpoint-discrete, Transaction, TxIn, TxOut, Block, Coin, SilentPayments,
}
use kernel_node.Wallet.Coins
use kernel_node.Wallet.Coins.{Wallet, regtest, scan_block, process_disconnect}
use kernel_node.Wallet.Coins.Reorg.{process_disconnect-scan_block}

-- Every output is the wallet's, with its value as the tweak.
abbrev pub generous : SilentPayments
generous = record {
  Receiver = Unit {0};
  SecretKey = Unit {0};
  PublicKey = Unit {0};
  Label = Unit {0};
  TweakData = Unit {0};
  SharedSecret = Unit {0};
  get_pubkey_from_input = λ script witness prevout. some tt;
  calculate_tweak_data = λ keys outpoints. some tt;
  calculate_ecdh_shared_secret = λ tweak_data b_scan. tt;
  receiver_scan = λ receiver secret outputs. some ((none, map (λ pk. (pk, pk)) outputs) ∷ []);
  label_scalar = λ label. 0;
  is_p2tr = λ script. true;
  xonly_from_slice = λ bytes. some (length bytes);
}

abbrev pub ours : OutPoint
ours = record { txid = 1; vout = 0 }

abbrev pub old_coin : Coin
old_coin = record {
  value = 50;
  script_pubkey = 0 ∷ [];
  tweak = 1;
  label = none;
  block_height = 3;
  spent_by = none;
}

abbrev pub wallet : Wallet generous
wallet = record {
  scan_height = 3;
  keys = some (record { receiver = tt; scan_key = tt });
  spend_key = some tt;
  spend_secret = some tt;
  network = regtest;
  utxos = (ours, old_coin) ∷ [];
  reserved = [];
}

abbrev payment : Transaction
payment = record {
  txid = 8;
  inputs = record { outpoint = ours; script_sig = some []; witness_stack = [] } ∷ [];
  outputs = record { value = 40; script_pubkey = 1 ∷ 2 ∷ 3 ∷ [] } ∷ [];
}

abbrev pub block : Block
block = record { txid = 7; inputs = []; outputs = [] } ∷ payment ∷ []

abbrev pub spents : List (List TxOut)
spents = (record { value = 50; script_pubkey = 0 ∷ [] } ∷ []) ∷ []

abbrev pub after : Wallet generous
after = record wallet {
  scan_height = 4;
  utxos =
      (ours, record old_coin { spent_by = some (record { txid = 8; block_height = 4 }) })
      ∷ (
        record { txid = 8; vout = 0 },
        record {
          value = 40;
          script_pubkey = 1 ∷ 2 ∷ 3 ∷ [];
          tweak = 1;
          label = none;
          block_height = 4;
          spent_by = none;
        },
      )
      ∷ [];
}

pub scan_run : scan_block generous wallet block spents 4 ≡ some (1, after)
unfolding scan_block Scanning.scan_block_inner Scanning.scan_loop Scanning.scan_one
    Scanning.found_coins Scanning.scan_transaction Scanning.keyed_inputs Scanning.all_matches
    Scanning.label_matches Scanning.index_of Scanning.taproot_outputs_from Scanning.parse_p2tr
    Scanning.input_data Coins.spend_all Coins.spend_inputs Coins.change Coins.insert_all
    HashMap.insert HashMap.get outpoint-discrete ℕ_discrete
scan_run = refl

process_disconnect-scan_block_example :
    HashMap.get ours (process_disconnect generous after block).utxos ≡ some old_coin
unfolding contains HashMap.get outpoint-discrete ℕ_discrete
process_disconnect-scan_block_example =
    process_disconnect-scan_block generous wallet after block spents 4 1 ours
      (λ e. absurd (false≢true e)) (inl refl) scan_run
