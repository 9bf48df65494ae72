-- ===== src/Node/Start/Connect.antt =====
-- src/bin/node.rs: the addresses of the `--connect` option.
use kernel_node.Prelude.{ℕ, ◌≡◌, refl, sym, Option, some, List, ◌∷◌, ◌++◌, arith, nat_eq, []}
use kernel_node.Prelude.Reader.{Result, ok, err}
use kernel_node.Prelude.Text.{split}
use kernel_node.Node.Start.{join_connect, parse_all, parse_connect}

-- What two lists of addresses give, the first error first.
abbrev pub both {ℓ κ} :
    {E : Type ℓ} {A : Type κ} → Result E (List A) → Result E (List A) → Result E (List A)
both (err e) r = err e
both (ok xs) (err e) = err e
both (ok xs) (ok ys) = ok (xs ++ ys)

both_nil {ℓ κ} : {E : Type ℓ} {A : Type κ} (r : Result E (List A)) → both (ok []) r ≡ r
both_nil (ok xs) = refl
both_nil (err e) = refl

split-join :
    (mark : ℕ) (text next : List ℕ)
    → split mark (text ++ mark ∷ next)
      ≡ ((split mark text).0, (split mark text).1 ++ ((split mark next).0 ∷ (split mark next).1))
unfolding split
split-join mark [] next = ground arith
split-join mark (c ∷ text) next = ground (arith, split-join mark text next)

module _ {SocketAddr : Type 0} (parse : List ℕ → Option SocketAddr) where
  parse_all-append :
      (xs ys : List (List ℕ))
      → parse_all parse (xs ++ ys) ≡ both (parse_all parse xs) (parse_all parse ys)
  unfolding parse_all
  parse_all-append [] ys = sym (both_nil (parse_all parse ys))
  parse_all-append (x ∷ xs) ys = ground (arith, parse_all-append xs ys)

  -- The value that the options of the configuration are joined to is read as the addresses of each,
  -- one after the other, or as the first that cannot be read.
  pub parse_connect-join_connect :
      (peers next : List ℕ)
      → parse_connect parse (some (join_connect peers next))
        ≡ both (parse_connect parse (some peers)) (parse_connect parse (some next))
  unfolding parse_connect join_connect
  parse_connect-join_connect peers next = rw (split-join b',' peers next) (
      parse_all-append ((split b',' peers).0 ∷ (split b',' peers).1)
        ((split b',' next).0 ∷ (split b',' next).1))
