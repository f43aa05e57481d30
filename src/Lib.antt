-- ===== src/Lib.antt =====
-- MiniWin is an operating system for the PC: a kernel in C headers that kernel/kernel.c includes,
-- with its drivers, a window system, a file system, a network stack and applications. This library
-- models parts of it whose logic does not lie in the hardware, one module for each.
--
-- - Ime: kernel/hangul_ime.h and the code-point tables of kernel/font_ko.h, the Korean input method
--   that the editor feeds keys to. The static variables ko_cur_initial, ko_cur_medial and
--   ko_cur_final are the record Ime.Syllable (-1 is `none`), the buffer with its length and its
--   capacity is Ime.Document; ko_ime_feed_key, ko_ime_commit, ko_emit_utf8, ko_ime_backspace and
--   ko_ime_preview_codepoint are feed_key, commit, emit_utf8, backspace and preview_codepoint. The
--   tables stand in Ime.Jamo.
-- - Mm: the page-frame allocator of kernel/mm.h. Memory is a function from addresses to bytes and
--   the bitmap lies in it; mm_init_region, mm_pages_alloc_z and mm_pages_free are init_region,
--   pages_alloc_z and pages_free. The scan of the bitmap is a recursion on the rounds that its loop
--   has left, which the range gives, so no fuel is needed. The chunk table of the heap, kmalloc and
--   kfree are not modelled, nor are mm_stat_allocs and mm_stat_frees, which only they count.
-- - Rtc: kernel/rtc.h. The clock chip is a function from registers to bytes; the bounded wait of
--   rtc_read for the end of an update is left out, since it only polls the chip.
-- - Bignum: kernel/bignum.h, the arithmetic under RSA and X25519. A bignum_t is the list of its
--   BIGNUM_LIMBS limbs, the least significant one first, a wide product a list of twice as many; each
--   function has the source's name, but bn_used_limbs and bn_wide_bit_length, which are used_limbs
--   and bit_length_from. Loops over limbs are recursions on the lists, loops over bits recursions on
--   the number of bits left, so no fuel is needed.
-- - Mwfs: kernel/mwfs.h, the file system: mwfs_geometry, the names (mwfs_name_ok, mwfs_name_eq), the
--   free-space bitmap and mwfs_alloc; in Mwfs.Inode the inode table, an inode being 64 bytes of a
--   sector; in Mwfs.Block the sectors of a file, mwfs_bmap and mwfs_pread; in
--   Mwfs.Directory mwfs_dir_nth, mwfs_dir_find, mwfs_dir_is_empty, mwfs_dir_remove and
--   mwfs_dir_retarget. The record Volume is
--   mwfs_vol_t with the disk under it: what each sector holds, and at which sectors blk_read and
--   blk_write of kernel/blk.h fail. The loops are recursions on the rounds they have left;
--   mwfs_pread has as many as bytes to read, of which each takes one at least. mwfs_pwrite,
--   mwfs_dir_add and what stands on them are not modelled.
-- - Asn1: kernel/asn1.h, the reader of DER under X.509. A buffer is a list of bytes, a pointer into it
--   an offset; asn1_parse_tlv and asn1_expect are parse_tlv and expect.
-- - Net: kernel/net.h and kernel/nic.h: network order, net_checksum_add and net_checksum_finish
--   (checksum_add, checksum_finish), and the record Net of what the layers share: nic, net_cfg,
--   arp_cache, ip_pending and net_ticks. The card is its answers to the frames offered to it and the
--   frames that it took. The loop of net_checksum_finish has 2 rounds, which fold any `u32`.
-- - Arp: kernel/arp.h; each function has the source's name without its prefix. The cache is a list of
--   entries, and arp_resolved_cb, through which the layer below calls the one above, is a parameter.
-- - Ip: kernel/ip.h: ip_build_header, ip_parse, ip_send, ip_send_now and ip_flush_pending are
--   build_header, parse, send, send_now and flush_pending. A datagram whose next hop is unknown waits
--   in the `parked` field of Net, and flush_pending is what Arp calls back.
-- - Tcp: kernel/tcp.h, the one connection. The record Conn is tcp_conn_t, with the bytes in its two
--   buffers as lists; Host adds the network below, tcp_next_port and the wall clock. Tcp has the
--   segments and tcp_connect, Tcp.Send the send queue and the timers, Tcp.Receive tcp_handle_packet
--   with a function for each case of its switch, and Tcp.Runs the calls as steps. The loop over the
--   options of a SYN has as many rounds as the header has bytes, and each round takes one at least.
-- - Udp, Icmp, NetStack: kernel/udp.h, kernel/icmp.h and kernel/net_stack.h. A UDP handler is a
--   number, and udp_handle_packet gives the call that it makes; NetStack takes what such a call does,
--   dhcp_poll and dns_poll as parameters, and the frames that the card has received as a list.
--   net_stack_handle_frame and net_stack_poll are stack_handle_frame and stack_poll.
-- - Base: names of the standard library passed on, Boolean tests on numbers, lists with indices in
--   the native numbers, bit masks and joins as arithmetic, and signed integers.
--
-- Numbers are natural numbers, and a sum that the source computes in 32 bits is cut to 32 bits
-- where it could wrap. Device drivers, drawing, the boot loader and the parts named as such in the
-- comments of the modules are not modelled: what they do is input and output.
pub mod Base
pub mod Asn1
pub mod Bignum
pub mod Ime
pub mod Mm
pub mod Mwfs
pub mod Rtc
pub mod Net
pub mod Arp
pub mod Ip
pub mod Tcp
pub mod Udp
pub mod Icmp
pub mod NetStack
