-- ===== src/Packet/Assemble.antt =====
-- `Packet::make_pkt`: the header, the payload, and a terminating zero.
use p2purr.Base.{
  ℕ, zero, suc, ◌+◌, ◌-◌, ◌^◌, ◌≤◌, ◌<◌, ◌≡◌, refl, sym, ap, ◌∙◌, some, List, [], ◌∷◌, ◌++◌,
  append_assoc, append-nil, arith, length, take, drop, set, length-take, length-drop,
  take-append-drop, memcpy, store, read_n, memcpy_lem, store_lem, read_n_lem, pos, ok,
}
use p2purr.Packet.{Platform, Context}
use p2purr.Packet.Build.{source, make_pkt}

set_last :
    {A : Type 0} (n : ℕ) (p : List A) (v : A) → length p ≡ n + 1 → set p n v ≡ take n p ++ v ∷ []
set_last n [] v e = absurd (omega arith)
set_last zero (x ∷ []) v e = refl
set_last zero (x ∷ y ∷ p) v e = absurd (omega arith)
set_last (suc n) (x ∷ p) v e = ap (◌∷◌ x) (set_last n p v (omega arith))

module _ (env : Platform) where
  -- The bytes that the copies overwrite.
  abbrev pub room : ℕ → List ℕ
  room n = take n (env.uninitialised (n + 1))

  pub length-room : (n : ℕ) → length (room n) ≡ n
  length-room n =
      omega (arith, length-take n (env.uninitialised (n + 1)), env.length-uninitialised (n + 1))

  pub store_end : (n : ℕ) → store (env.uninitialised (n + 1)) n 0 ≡ some (room n ++ 0 ∷ [])
  store_end n =
      store_lem (env.uninitialised (n + 1)) n 0 (omega (arith, env.length-uninitialised (n + 1)))
      ∙ ap some (set_last n (env.uninitialised (n + 1)) 0 (env.length-uninitialised (n + 1)))

  -- The copy of the header, and of the payload behind it.
  copy_header :
      (n : ℕ) (h : List ℕ)
      → length h ≤ n
      → memcpy (room n ++ 0 ∷ []) 0 h ≡ some (h ++ (drop (length h) (room n) ++ 0 ∷ []))
  copy_header n h le = rw (split) (
      memcpy_lem [] (take (length h) (room n)) (drop (length h) (room n) ++ 0 ∷ []) h 0 refl
        (omega (arith, length-take (length h) (room n), length-room n)))
    where
      split : room n ++ 0 ∷ [] ≡ take (length h) (room n) ++ (drop (length h) (room n) ++ 0 ∷ [])
      split =
          ap (λ xs. xs ++ 0 ∷ []) (sym (take-append-drop (length h) (room n)))
          ∙ append_assoc (take (length h) (room n)) (drop (length h) (room n)) (0 ∷ [])

  copy_payload :
      (n : ℕ) (h body : List ℕ)
      → n ≡ length h + length body
      → memcpy (h ++ (drop (length h) (room n) ++ 0 ∷ [])) (length h) body
        ≡ some (h ++ (body ++ 0 ∷ []))
  copy_payload n h body e =
      memcpy_lem h (drop (length h) (room n)) (0 ∷ []) body (length h) refl
        (omega (arith, length-drop (length h) (room n), length-room n))

  pub source_all : (h : List ℕ) → source (some h) (length h) ≡ some h
  source_all h = ap (read_n (length h)) (sym (append-nil h)) ∙ read_n_lem (length h) h [] refl

  -- `make_pkt` joins the header, the payload and a zero.
  pub make_pkt_lem :
      (n : ℕ) (s : Context) (h body : List ℕ)
      → s.header ≡ some h
      → s.full_hdr_len ≡ length h
      → source s.payload s.payload_len ≡ some body
      → s.pkt_len ≡ pos n
      → n ≡ length h + length body
      → n < 2 ^ 31 - 1
      → make_pkt env s
        ≡ ok tt
            (record s { packet = record (s.packet) { built_pkt = some (h ++ (body ++ 0 ∷ [])) } })
  unfolding make_pkt
  make_pkt_lem n s h body eh ef eb en e lt =
      ground
        (arith, store_end n, source_all h, copy_header n h (omega arith), copy_payload n h body e)
