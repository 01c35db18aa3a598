-- ===== src/Bplist/Writer/Tests.antt =====
-- Runs of the writer of shared/protocol/bplist.c, read back, and uses of its theorems.
use protable_airplay.Base.{
  recover, be_bytes, drop, ◌++◌, ◌<◌, ℕ, ◌≤◌, ◌≡◌, refl, ◌⊎◌, List, [], ◌∷◌, some, arith, Result,
  ok, ◌>>=◌, read, read_be, read_be_loop,
}
use protable_airplay.Rtp.{slice}
use protable_airplay.Bplist.{
  magic, bplist_open, equal_bytes, object, object_at, count_of, long_count, reference, is_key,
  get_loop, get, uint,
}
use protable_airplay.Bplist.Writer.{
  Writer, used, count, writer_init, put, start, fill, add_uint, add_ref, add_refs, add_dict,
  side_of, pairs, add_offsets, trailer, finish,
}
use protable_airplay.Bplist.Writer.Opens.{bplist_open-finish}
use protable_airplay.Bplist.Writer.Bounds.{
  calls-Fits, init-Fits, Call, string, number, dict, calls, calls-finish,
}

-- {"port": 7000}
abbrev port_calls : List Call
port_calls = string (112 ∷ 111 ∷ 114 ∷ 116 ∷ []) ∷ number 7000 ∷ dict ((0, 1) ∷ []) ∷ []

abbrev port_plist : ℕ × Writer
port_plist = finish (calls (writer_init 256) port_calls) 2

-- The reader on what the writer wrote
port_of : List ℕ → Result ℕ
port_of bs = do
  p ← bplist_open bs
  value ← get p (some p.root) (112 ∷ 111 ∷ 114 ∷ 116 ∷ [])
  uint p value

written_size : port_plist.0 ≡ 69
unfolding writer_init put be_bytes start fill add_uint add_ref add_refs add_dict side_of pairs
    add_offsets trailer finish
written_size = refl

read_back : port_of port_plist.1.written ≡ ok 7000
unfolding writer_init put be_bytes start fill add_uint add_ref add_refs add_dict side_of pairs
    add_offsets trailer finish port_of bplist_open equal_bytes object object_at count_of long_count
    reference recover is_key get_loop get uint slice read read_be read_be_loop
read_back = refl

-- Storage that is too small
out_of_room : (finish (calls (writer_init 60) port_calls) 2).0 ≡ 0
unfolding writer_init put be_bytes start fill add_uint add_ref add_refs add_dict side_of pairs
    add_offsets trailer finish
out_of_room = refl

calls-finish_example :
    (used port_plist.1 ≤ 256)
    × (count port_plist.1 ≤ 128)
    × ((port_plist.0 ≡ 0) ⊎ (port_plist.0 ≡ used port_plist.1))
calls-finish_example = calls-finish 256 port_calls 2 (omega arith)

abbrev port_writer : Writer
port_writer = calls (writer_init 256) port_calls

port_begins : port_writer.written ≡ magic ++ drop 8 port_writer.written
unfolding writer_init put be_bytes start fill add_uint add_ref add_refs add_dict side_of pairs
port_begins = refl

port_finishes : 0 < (finish port_writer 2).0
unfolding writer_init put be_bytes start fill add_uint add_ref add_refs add_dict side_of pairs
    add_offsets trailer finish
port_finishes = omega arith

bplist_open-finish_example :
    bplist_open (finish port_writer 2).1.written
    ≡ ok (record {
      bytes = (finish port_writer 2).1.written;
      table = used port_writer;
      count = count port_writer;
      root = 2;
      offset_size = 4;
      ref_size = 1;
    })
bplist_open-finish_example =
    bplist_open-finish 256 port_writer 2 (drop 8 port_writer.written)
      (calls-Fits (writer_init 256) port_calls (init-Fits 256 (omega arith))) port_begins
      port_finishes
