-- ===== src/Wire/Tests.antt =====
-- Message sizes on the server's transport.
use rdma_yuxi.Prelude.{◌-◌, ◌*◌, ◌≤◌, ◌<◌, ◌≡◌, arith}
use rdma_yuxi.Wire.Header.{ib_traits, format, PktType}
use rdma_yuxi.Wire.Sizes.{
  data_size_to_num_pkts, max_msg_size, wire_pkts, data_size_to_num_pkts_bounds, pkt_num_fits,
}

data_size_to_num_pkts_bounds_example :
    (1 ≤ data_size_to_num_pkts ib_traits 5000)
    × (5000 ≤ data_size_to_num_pkts ib_traits 5000 * 3824)
    × (0 < 5000 → (data_size_to_num_pkts ib_traits 5000 - 1) * 3824 < 5000)
data_size_to_num_pkts_bounds_example = data_size_to_num_pkts_bounds ib_traits 5000 (omega arith)

pkt_num_fits_example : (format 0 0 0 PktType.resp 2 0).pkt_num ≡ 2
unfolding max_msg_size wire_pkts data_size_to_num_pkts
pkt_num_fits_example =
    pkt_num_fits ib_traits 5000 5000 2 (omega arith) (omega arith) (omega arith) (omega arith)
      (omega arith)
