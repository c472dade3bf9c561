-- ===== src/Metadata/Again.antt =====
-- torrent-protocol.js: the metadata that `verifyMetadata` keeps is accepted again.
use my.Base.{
  ℕ, zero, suc, ◌+◌, ◌-◌, ◌≤◌, ◌<◌, ◌≡◌, inl, inr, Bool-cases, refl, ◌&&◌, sym, ap, ◌∙◌, false,
  Option, none, some, List, [], ◌∷◌, ◌++◌, length, All, leb, length-append, arith,
}
use mathlib.Core.Path.{subst}
use mathlib.Core.List.{append-nil}
use my.Base.Int.{pos}
use my.Base.Text.{Text, is_hex, text_eq, text_eq_iff}
use my.Base.Failure.{ok, >>=-eq_ok, require, invalid_publication}
use my.Bencode
use my.Bencode.{
  Parse, parsed, refused, out_of_fuel, Node, Value, Fields, number, string, dictionary, end, field,
  value_of, raw_of, bdecode, before, integer, is_positive, value_from, digits_value, number_at,
  kind, value_at, parse, parse_fields, string_at, key_name, finish,
}
use my.Bencode.Ensures.{Ensures-parsed}
use my.Bencode.Frame.{Entry, Entries, read_value}
use my.Bencode.Reparse.{reparse}
use my.Bencode.Values.{string_at-take}
use my.Bencode.Whole.{Decoded, bdecode-Ensures, bdecode-parsed}
use my.Metadata.{
  bencoded, metadata_limit, codes, Component, Metadata, enclosed, lookup, member, check_info,
  verify_metadata,
}

module _ (decode : List ℕ → Option Text)
    (ascii : (b : List ℕ) → All (λ c. c < 128) b → decode b ≡ some b) where
  four : (r : List ℕ) → number_at decode b':' false (codes "4:" ++ r) ≡ parsed (pos 4, r)
  unfolding number_at before digits_value integer is_positive value_from text_eq
  four r = rw (ascii (b'4' ∷ []) (omega arith, tt))

  info :
      (f : ℕ) (r : List ℕ)
      → parse decode (suc f) 1 (codes "4:info" ++ r) 1
        ≡ parsed (Bencode.node (string (codes "info")) (codes "4:info"), r, 2)
  unfolding kind value_at
  info f r =
      reparse decode (suc f) f 1 b'4' 1 1 0 (codes ":info") r (codes "4:info")
        (string (codes "info")) (omega arith) (omega arith) refl refl
        (λ j h.
          rw (four (codes "info" ++ r)) (string_at-take decode (pos 4) (codes "info") r 2 refl))

  module _ (room : ℕ) (x : Node) (entry : Entry decode 512 2 1 room (codes "info") x) where
    abbrev single : Value
    single = dictionary (field (codes "info") x end)

    fields_again :
        (g : ℕ)
        → 513 ≤ g
        → parse_fields decode g 0 none (codes "4:info" ++ (raw_of x ++ b'e' ∷ [])) 1
          ≡ parsed (field (codes "info") x end, [], 2 + entry.more)
    unfolding parse
    fields_again zero h = absurd (omega arith)
    fields_again (suc zero) h = absurd (omega arith)
    fields_again (suc (suc f)) h = rw (
      info f (raw_of x ++ b'e' ∷ []),
      ascii (codes "info") (omega arith, (omega arith, (omega arith, (omega arith, tt)))),
      entry.again (suc f) 2 (b'e' ∷ []) (omega arith) (omega arith),
    )

    value_again :
        (g : ℕ)
        → 513 ≤ g
        → read_value decode 0 b'd' (kind b'd') g (codes "4:info" ++ (raw_of x ++ b'e' ∷ [])) 1
          ≡ parsed (single, [], 1 + (1 + entry.more))
    unfolding kind value_at
    value_again g h = rw (fields_again g h) (
        let e : 2 + entry.more ≡ 1 + (1 + entry.more) = omega arith in
        ap (λ k. parsed (single, [], k)) e)

    bdecode_again : bdecode decode (enclosed (raw_of x)) ≡ parsed single
    bdecode_again =
        let inside = codes "4:info" ++ (raw_of x ++ b'e' ∷ []) in
        let nothing = append-nil inside in
        bdecode-parsed decode (enclosed (raw_of x)) (Bencode.node single (enclosed (raw_of x)))
          (2 + entry.more)
          (ap (λ t. parse decode 514 0 (b'd' ∷ t) 0) (sym nothing)
            ∙ reparse decode 514 513 0 b'd' 0 0 (1 + entry.more) inside [] (enclosed (raw_of x))
                single (omega arith) (omega arith) refl refl
                (λ g h.
                  ap (λ t. read_value decode 0 b'd' (kind b'd') g t 1) nothing ∙ value_again g h)
            ∙ (let e : 0 + suc (1 + entry.more) ≡ 2 + entry.more = omega arith in
                ap (λ k. parsed (Bencode.node single (enclosed (raw_of x)), [], k)) e))

  module _ (short : (b : List ℕ) (t : Text) → decode b ≡ some t → length t ≤ length b)
      (sha1 : List ℕ → List ℕ) where
    find_entry :
        (room : ℕ) (fs : Fields) (x : Node)
        → Entries decode 512 2 1 room fs
        → lookup (codes "info") fs ≡ some x
        → Entry decode 512 2 1 room (codes "info") x
    unfolding lookup
    find_entry room end x h e = cc
    find_entry room (field name y fs) x h e = elim (Bool-cases (text_eq name (codes "info"))) [
      | inl t ↦
          let q : y ≡ x = cc in
          subst (Entry decode 512 2 1 room (codes "info")) q
            (subst (λ n. Entry decode 512 2 1 room n y) ((text_eq_iff name (codes "info")).0 t) h.0)
      | inr t ↦ find_entry room fs x h.1 (rw t at e)
    ]

    -- The dictionary that is found in a decoded value.
    member-Entry :
        (bytes : List ℕ) (v : Value) (x : Node)
        → Decoded decode bytes v
        → member (codes "info") v ≡ some x
        → Entry decode 512 2 1 (length bytes - 1) (codes "info") x
    unfolding member
    member-Entry bytes (dictionary fs) x h e = find_entry (length bytes - 1) fs x h e
    member-Entry bytes _ x h e = cc

    enclosed-size :
        (bytes : List ℕ) (x : Node)
        → Entry decode 512 2 1 (length bytes - 1) (codes "info") x
        → length (enclosed (raw_of x)) ≤ length bytes
    enclosed-size bytes x h =
        omega (
          arith,
          h.space,
          short h.key (codes "info") h.decoded,
          length-append (raw_of x) (b'e' ∷ []),
        )

    check-metadata :
        (expected : Text) (kind : Option Component) (x : Node) (m : Metadata)
        → check_info decode sha1 expected kind (some x) ≡ ok m
        → m.metadata ≡ enclosed (raw_of x)
    unfolding check_info
    check-metadata expected kind x m h = ground (arith, h)

    bencoded-eq : (r : Parse Value) (v : Value) → bencoded r ≡ ok v → r ≡ parsed v
    bencoded-eq (parsed a) v h = cc
    bencoded-eq refused v h = cc
    bencoded-eq out_of_fuel v h = cc

    info_found :
        (bytes : List ℕ) (expected : Text) (kind : Option Component) (m : Metadata) (v : Value)
        (o : Option Node)
        → bdecode decode bytes ≡ parsed v
        → member (codes "info") v ≡ o
        → check_info decode sha1 expected kind o ≡ ok m
        → (x : Node) × (m.metadata ≡ enclosed (raw_of x))
          × (check_info decode sha1 expected kind (some x) ≡ ok m)
          × Entry decode 512 2 1 (length bytes - 1) (codes "info") x
    info_found bytes expected kind m v none e f h = unfold check_info in cc
    info_found bytes expected kind m v (some x) e f h = (
      x,
      check-metadata expected kind x m h,
      h,
      member-Entry bytes v x
          (Ensures-parsed (Decoded decode bytes) (bdecode decode bytes) v
            (bdecode-Ensures decode bytes) e)
          f,
    )

    size-require :
        (n k lim : ℕ) (u : Unit {0})
        → require (leb 1 n && leb n lim) invalid_publication ≡ ok u
        → 1 ≤ k
        → k ≤ n
        → require (leb 1 k && leb k lim) invalid_publication ≡ ok u
    size-require n k lim u h p q = ground arith

    member-single :
        (room : ℕ) (x : Node) (e : Entry decode 512 2 1 room (codes "info") x)
        → member (codes "info") (single room x e) ≡ some x
    unfolding member lookup text_eq
    member-single room x e = refl

    -- A decoder that leaves ASCII as it is and that makes no more code units than there are bytes: the
    -- metadata that `verifyMetadata` returns, which is what is kept in the cache, is accepted again under
    -- the same infohash and kind, with the same result.
    pub verify_metadata-again :
        (bytes : List ℕ) (expected : Text) (kind : Option Component) (m : Metadata)
        → verify_metadata decode sha1 bytes expected kind ≡ ok m
        → verify_metadata decode sha1 m.metadata expected kind ≡ ok m
    unfolding verify_metadata
    verify_metadata-again bytes expected kind m h =
        let a = >>=-eq_ok (require (is_hex 40 expected) invalid_publication) _ h in
        let b =
          >>=-eq_ok
            (require (leb 1 (length bytes) && leb (length bytes) (metadata_limit kind))
              invalid_publication)
            _ a.2 in
        let c = >>=-eq_ok (bencoded (bdecode decode bytes)) _ b.2 in
        let e = bencoded-eq (bdecode decode bytes) c.0 c.1 in
        let (x, q, r, entry) =
          info_found bytes expected kind m c.0 (member (codes "info") c.0) e refl c.2 in
        subst (λ s. verify_metadata decode sha1 s expected kind ≡ ok m) (sym q)
          (rw
            (
              a.1,
              size-require (length bytes) (length (enclosed (raw_of x))) (metadata_limit kind) b.0
                  b.1 (omega arith) (enclosed-size bytes x entry),
              bdecode_again (length bytes - 1) x entry,
              member-single (length bytes - 1) x entry,
            )
            r)
