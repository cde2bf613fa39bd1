-- ===== src/Packet/Index.antt =====
-- `update_buff_idx` and `update_local_buff_info` of src/packet.cpp.
use p2purr.Base.{ℕ, ◌≤◌, ◌≡◌, true, pos, ok, arith}
use p2purr.Packet.{Context, update_buff_idx, update_local_buff_info}

-- The index follows the read position, as far as the buffer's end.
pub update_buff_idx_lem :
    (s : Context) (i total : ℕ)
    → s.has_buff_idx ≡ true
    → s.buff_next ≡ i
    → s.buff_total_len ≡ pos total
    → i ≤ total
    → update_buff_idx s ≡ ok tt (record s { buff_idx = i })
unfolding update_buff_idx
update_buff_idx_lem s i total h e t le = ground arith

-- The read position follows the index.
pub update_local_buff_info_lem :
    (s : Context) (i : ℕ)
    → s.has_buff_idx ≡ true
    → s.buff_idx ≡ i
    → update_local_buff_info s
      ≡ ok tt (record s { packet = record (s.packet) { buff_pos_start = pos i; buff_next = i } })
unfolding update_local_buff_info
update_local_buff_info_lem s i h e = ground arith
