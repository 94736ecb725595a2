-- ===== src/Lib.antt =====
-- MCDMA: RDMA between hosts over a ConnectX-5 adapter or Thunderbolt. This library models the parts of
-- its C and C++ code that both ends of a link stand on.
--
-- UserQueue models the mirror queue of include/cx5_user_completion.h (`mcdma_user_queue_reset`,
-- `_can_post`, `_post`, `_rollback`, `_complete`): 32 slots of requests, found again by their 16-bit
-- counter. UserQueue.Inv has its invariant, UserQueue.Contents the map from counters to requests that
-- it implements, UserQueue.Rollback the undoing of refused posts.
-- Cqe models `mcdma_user_decode` of the same file. The queues are pointers there, so `Cqe.Queues` is a
-- store; the lookup of a QP is the caller's and a parameter.
-- UserPost models include/cx5_user_post.h: `mcdma_request_bytes`, `mcdma_encode_send_request`,
-- `mcdma_encode_recv_wqe`, `mcdma_info_write` and `mcdma_info_read`.
-- Observer models the functions of include/cx5_cq_observer.h on a buffer as it stands at one moment.
-- Wire models the datagrams of the setup exchange, `xchg_encode` and `xchg_decode` of rpc/link_xchg.c
-- over the structs of rpc/link.h, as lists of bytes.
-- Verbs models regions and transfers of rpc/link_verbs.c: `ep_reg`, `ep_reg_region`, `region_lkey`, the
-- table of `ep_info`, `table_valid` and `cut`. The verbs library's `ibv_reg_mr` is a parameter.
-- Tb models a Thunderbolt link of rpc/link_tb.c that is not bonded: `post_send`, `has_room`,
-- `send_head`, `msg_max`, `tb_can_write`, `tb_write_try` and the send half of `complete`. Tb.Receive
-- models `take` and the loop of `drain` on whole messages. `ibv_post_send` is a parameter that takes or
-- refuses each post. Tb.Account is about what is in flight, Tb.Send about what a write posts, Tb.Total
-- about its end, Tb.Receive.Chunk and Tb.Receive.Deliver about a write taken by the peer, and
-- Tb.Receive.Guard about any messages at all. Tb.Ring models the receive half of `complete`, the search
-- of `drain` for a whole message, `repost`, and the copies `copy_out` and `copy_skip`; a message that
-- Tb.Receive takes is the bytes that Tb.Ring finds, over the slots that it counts.
-- Bond models `bond_parts` of rpc/fabric_bond_n.h, which cuts a transfer over the links of a bond.
-- Bond.Signals is what a bonded peer of rpc/libmcdma_fabric.c receives: `bond_drain`, `bond_placed`,
-- `widen` and `bond_signal`, each one step, as they run under one lock but for the first lines of
-- `bond_placed`; Ring has the invariant of the pending signals, Calls what the links may report, Placed the
-- writes that a signal follows, Kept where a signal waits and Order the log of what was stored. Bond.Tails
-- is `bond_announce`, `bond_tail` and
-- `bond_ready_n`. `bond_drain` recurses on 4096 rounds, one for each number that the ring can hold.
-- Core models the C++ that the drivers share. Core.WorkQueue is the kernel's queue of
-- include/cx5_work_queue.hpp (`can_post`, `post`, `complete`, `references`, `removed`), and its child
-- Mirror sets it beside UserQueue. Core.Pages is `segments_valid`, `choose_log_page` and `page_list` of
-- core/cx5_verbs.cpp: Chain reads the segments as a map from process to device addresses, Entry
-- and Table are about the entries and Choice about the page size. Core.Bits is `set_bits`
-- and `get_bits` of that file, Core.MemoryKey its `create_mkey` and `create_user_mkey`, Core.Entries its
-- `request_bytes`, `encode_send_request`, `encode_wqe` and `decode_cqe`, which its children Encoders and
-- Agree set beside UserPost and Cqe. Core.Command is core/cx5_protocol.cpp: `encode_command`,
-- `encode_inline`, `decode_inline`, with Mailboxes for `prepare_mailboxes` and `collect_mailboxes`, Signed
-- for the checksums and Lease for `CommandLease`. Core.Device is `inspect` of the same file.
-- Daemon models mcdma-rpcd's two ends of a link. Daemon.Listen is `listen_drop`, `listen_offer`,
-- `listen_datagram`, `listen_reply` and the rounds of `run_listen` of rpc/rpcd_listen.c, Daemon.Connect is
-- `peer_down`, `peer_connect`, `connect_service` and `peer_thread` of rpc/rpcd_connect.c, cut at each
-- receive of the exchange, and Daemon itself what rpc/rpcd_verbs.c and rpc/link_xchg.c give both
-- (`box_offer`, `box_refuse`, `xchg_answer`, `xchg_prepare`). Clock, device, session numbers and the words
-- that others write in the mailbox are arguments. Daemon.System runs the ends against each other over an
-- exchange that may lose, repeat and reorder datagrams: Connecting and Listening say what an operation
-- may change, Invariant what every step keeps, Agreement and Recovery what follows. Sessions are drawn
-- apart from each other, as 16 random bytes are; a datagram reaches an end only from the other, since
-- `xchg_recv` refuses what did not come over the link. Daemon.Transfer is `box_transfer` with the calls
-- that send a request and a reply, Daemon.Lines `take_line`, `valid_name` and `parse_mib` of
-- rpc/rpcd_common.c with what `recv` answers as an argument.
-- Prelude holds the shared names, list functions over the native numbers, little-endian fields,
-- slices, remainders and the exclusive or. Tests holds runs at concrete inputs.
--
-- A uint32_t or uint64_t is a number with `% 2 ^ w` where the code may wrap. Loops: `cut` recurses on
-- the room that is left, the loop of `ep_reg_region` on 129 rounds, of which 128 can register, the
-- loops of a bounded write on its 64 headers, which `tb_can_write` stops at.
--
-- Not modelled: clocks, logging, tracing and the rate estimate; sockets and what `xchg_recv` refuses by
-- their addresses; device and queue pair setup, `encode_rc_transition` among it; doorbells and barriers;
-- waits of the blocking sends; the memory of the staging ring behind messages in flight, the queue page
-- that an encoded send goes to, and the race of `bond_placed` with a signal that comes between its store
-- and its test; bonded links, whose message kinds are refused here as they are by a link
-- without bond hooks; the rest of the fabric library, the daemon's shared memory, control commands and
-- threads, the drivers and the tools.
pub mod Prelude
pub mod Bond
pub mod Core
pub mod Cqe
pub mod Daemon
pub mod Observer
pub mod Tb
pub mod UserPost
pub mod UserQueue
pub mod Verbs
pub mod Wire
pub mod Tests
