-- ===== src/Packet/Rebuild/Malformed.antt =====
-- `rebuild` on bytes that are no packet.
use p2purr.Base.{
  ℕ, ◌≤◌, ◌<◌, ◌≡◌, ◌≢◌, refl, ap, ◌∙◌, true, Option, none, some, List, ◌∷◌, store, arith,
  get_elem?, pos, ok, fault, ◌>>=◌, >>-ok, >>=-ok,
}
use p2purr.Packet.{
  Packet, Platform, Context, update_local_buff_info, update_buff_idx, set_build_pending,
}
use p2purr.Packet.Rebuild.Loops.{header_loop}
use p2purr.Packet.Index.{update_local_buff_info_lem}
use p2purr.Packet.Rebuild.{
  enters_header, header_result, header_ready, rebuild_header, read_header, for_rebuild,
  continue_rebuild, rebuild,
}
use p2purr.Packet.Rebuild.Ready.{tmp_cases}
use p2purr.Packet.Rebuild.Gate.{entered, passed}

-- A packet of whose header no more than two bytes have been read: what was read is lost.
pub record IsHeaderless (p : Packet) : Type 0 where
  pub index_set : p.has_buff_idx ≡ true
  pub no_header : p.header ≡ none
  pub length_unknown : p.full_hdr_len ≡ 0

module _ (env : Platform) where
  ready_without_header :
      (s : Context) (i total b : ℕ)
      → IsHeaderless s.packet
      → s.buff_idx ≡ i
      → s.buff_next ≡ i
      → s.buff_total_len ≡ pos total
      → i < total
      → 3 ≤ total
      → get_elem? s.recv_buffer i ≡ some b
      → b ≢ 0xFF
      → header_ready env s ≡ ok true (record s { buff_idx = i })
  unfolding header_result
  ready_without_header s i total b v ei en et lt three e no_start =
      passed env s b (ap (get_elem? s.recv_buffer) en ∙ e) (ground arith) ∙ result
    where
      result : header_result s.buff_idx s ≡ ok true (record s { buff_idx = i })
      result = ground arith

  stops : (s : Context) → s.header ≡ none → continue_rebuild env true s ≡ fault
  unfolding continue_rebuild rebuild_header
  stops s e = ground arith

  -- A packet whose header is not there yet, in a buffer of at least three bytes, at a byte other than the
  -- start symbol: `rebuild` reads through the null pointer of the header.
  pub rebuild_no_start :
      (s : Context) (i total b : ℕ)
      → IsHeaderless s.packet
      → s.buff_idx ≡ i
      → s.buff_total_len ≡ pos total
      → i < total
      → 3 ≤ total
      → get_elem? s.recv_buffer i ≡ some b
      → b ≢ 0xFF
      → rebuild env s ≡ fault
  unfolding rebuild
  rebuild_no_start s i total b v ei et lt three e no_start =
      >>-ok update_local_buff_info (header_ready env >>= continue_rebuild env)
        (update_local_buff_info_lem s i v.index_set ei)
      ∙ >>=-ok (header_ready env) (continue_rebuild env) (
          ready_without_header
            (record s { packet = record (s.packet) { buff_pos_start = pos i; buff_next = i } }) i
            total b
            (record {
              index_set = v.index_set;
              no_header = v.no_header;
              length_unknown = v.length_unknown;
            })
            ei refl et lt three e no_start)
      ∙ stops _ v.no_header

  -- A new packet at a buffer of one byte, and after it: nothing of the byte is kept.
  abbrev pub at_one_byte : ℕ → List ℕ → Option (List ℕ) → Context
  at_one_byte b buffer o = record {
    packet = for_rebuild env 0 (pos 1);
    recv_buffer = b ∷ buffer;
    buff_idx = 0;
    out_file = o;
  }

  abbrev pub byte_lost : ℕ → List ℕ → Option (List ℕ) → Context
  byte_lost b buffer o = record (at_one_byte b buffer o) {
    packet =
        set_build_pending (record (for_rebuild env 0 (pos 1)) { num_bytes_read = 1; buff_next = 1 })
          true;
    buff_idx = 1;
  }

  enters_at_one_byte :
      (b : ℕ) (buffer : List ℕ) (o : Option (List ℕ))
      → enters_header (at_one_byte b buffer o) b ≡ true
  unfolding for_rebuild
  enters_at_one_byte b buffer o = ground arith

  -- The byte goes to the local array.
  one_byte_read : ℕ → List ℕ → Option (List ℕ) → Context
  one_byte_read b buffer o = record (at_one_byte b buffer o) {
    packet = record (for_rebuild env 0 (pos 1)) {
      num_bytes_read = 1;
      buff_next = 1;
      full_hdr_len = 3;
    };
  }

  read_one_byte :
      (b : ℕ) (buffer : List ℕ) (o : Option (List ℕ))
      → read_header env (at_one_byte b buffer o) ≡ ok 1 (one_byte_read b buffer o)
  unfolding for_rebuild read_header header_loop one_byte_read store
  read_one_byte b buffer o =
      let (x, y, z, tmp) = tmp_cases (env.uninitialised 3) (env.length-uninitialised 3) in
      ground (arith, tmp)

  pub rebuild_one_byte :
      (b : ℕ) (buffer : List ℕ) (o : Option (List ℕ))
      → rebuild env (at_one_byte b buffer o) ≡ ok tt (byte_lost b buffer o)
  unfolding rebuild header_result one_byte_read for_rebuild set_build_pending update_buff_idx
      continue_rebuild
  rebuild_one_byte b buffer o =
      >>-ok update_local_buff_info (header_ready env >>= continue_rebuild env)
        (update_local_buff_info_lem (at_one_byte b buffer o) 0 refl refl)
      ∙ >>=-ok (header_ready env) (continue_rebuild env) (
          entered env (at_one_byte b buffer o) (one_byte_read b buffer o) b 1 refl
            (enters_at_one_byte b buffer o) (read_one_byte b buffer o))
