-- ===== src/Lib.antt =====
-- ncdc is a client for the Direct Connect protocols NMDC and ADC. This library models the parts of it
-- that carry its own logic, and proves what makes them correct.
--
-- proto.c writes and reads the messages of both protocols. dlfile.c downloads a file in segments
-- from several users at once: it keeps the chunks that are there in a bit array (util.c), and gives
-- the others to threads. When ncdc starts, `dlfile_load_threads` makes the threads anew from the
-- bitmap; `dlfile_getchunk` chooses a thread for a user, `dlfile_recv` takes up what the user sends,
-- and `dlfile_recv_done` gives the thread back, until no thread is left. tth.c computes the root of the
-- tree hash that identifies a file, and bloom.c the filter that tells a hub which hashes are shared.
-- fl_util.c holds the file list of a user as a tree: it finds items by name and by path, with the binary
-- search of util.c and the comparison of strutil.c, and answers the searches of other users.
-- dl.c keeps the queue: which user has which item, and who is connected for a download.
-- The transfers that run keep to the limits that are set with the ratecalc functions of util.c.
--
-- The files, each with the code that it is about (paths are from the root of the repository):
--   Prelude         helpers: Boolean tests on numbers, lists with the native length, bytes
--   Proto/Nmdc      src/proto.c: nmdc_encode_and_escape, nmdc_unescape_and_decode
--   Proto/Lock      src/proto.c: nmdc_lock2key
--   Proto/Escape    src/proto.c: adc_escape, adc_unescape
--   Proto/Sid       src/proto.c: ADC_EFCC, ADC_DFCC, ADC_TOCMDV
--   Proto/Adc       src/proto.c: adc_parse, adc_generate, adc_append; getparam and getparams are in
--                   Proto/Adc/Params
--   Bitmap          src/util.c: the macros bita_*
--   DlFile          src/dlfile.c: dlfile_thread_t and the fields of dl_t (src/dl.c) that it uses
--   DlFile/Cover    the invariant of a download, IsSound
--   DlFile/Load     src/dlfile.c: dlfile_load_block, dlfile_load_threads
--   DlFile/Segment  src/dlfile.c: dlfile_open, dlfile_getchunk
--   DlFile/Recv     src/dlfile.c: dlfile_recv, dlfile_recv_check, dlfile_recv_done
--   DlQueue         src/dl.c: dl_user_t, dl_user_dl_t, dl_t as the queue sees it, dl_user_setstate,
--                   dl_user_waitdone, dl_user_cc, dl_user_join, dl_user_dl_sort, dl_user_getdl
--   DlQueue/Users   src/dl.c: dl_user_add, dl_user_rm
--   DlQueue/Start   src/dl.c: dl_queue_start_istarget, dl_queue_start_user
--   DlQueue/Change  src/dl.c: dl_queue_insert, dl_queue_addlist, dl_queue_addfile, dl_queue_matchfile,
--                   dl_queue_rm, dl_queue_rmuser, dl_queue_setprio, dl_queue_seterr, dl_queue_setuerr
--   DlQueue/Run     these as the steps of a run
--   Tiger           src/tth.c: tiger_init, tiger_process_block, tiger_update, tiger_final, and the S-boxes
--   Tth             src/tth.c: tth_update, tth_update_leaf, tth_final, tth_root, tth_blocksize,
--                   tth_num_blocks; the root of a tree is defined level by level in Tth/Tree
--   Bloom           src/bloom.c: bloom_init, bloom_add
--   FlUtil          src/fl_util.c: fl_list_t
--   FlUtil/Change   src/fl_util.c: fl_list_add, fl_list_remove
--   FlUtil/Path     src/fl_util.c: fl_list_cmp, fl_list_cmp_strict, fl_list_file, fl_list_file_strict,
--                   fl_list_isempty, fl_list_path, fl_list_from_path
--   FlUtil/Search   src/fl_util.c: fl_search_match_name, fl_search_match, fl_search_rec,
--                   fl_search_match_full
--   PtrArray        src/util.c: ptr_array_search, ptr_array_insert_before
--   Base32          src/util.c: base32_encode_dat, base32_decode
--   RateCalc        src/util.c: ratecalc_reset, ratecalc_add, ratecalc_calc
--   StrUtil/Case    src/strutil.c: str_casecmp, str_casestr
--   StrUtil/Sizes   src/strutil.c: str_fullsize, str_parsesize
-- A file with the proofs about such a module stands in the folder of its name, and so do its Tests.
--
-- How the model corresponds to the code. A `guint32` or `guint64` is a natural number below 2 ^ 32 or
-- 2 ^ 64, and its arithmetic wraps as written. A text is the list of its bytes, without the
-- terminating zero. The threads of a download are a list; a pointer to one is its place there. A
-- function that changes a download returns the new one. NULL is `none`; where `none` says that the fuel
-- ran out, as in `fl_list_from_path`, it is `some none`. The state of a hash is the
-- data that it was given.
--
-- Fuel. `load_loop` has a unit for each chunk of the file and one more, and moves on by a block in each
-- round; `load_chunks` has one for each chunk of the block; `read_loop` one for each byte that is asked
-- for; `recv_loop` one for each byte received. Each round takes at least one, so it suffices. The loops of
-- tth.c over the digits of the number of leaves have 31 units, and fewer than 2 ^ 29 leaves fit the stack;
-- `double_until` has one for each bit of `r`. `full_blocks` and `update_loop` have one for each byte of the data.
-- `passes` has the three of the source. `search_loop` has one for each element of the array, `from_path`
-- one more than the path has characters, `rm_users` one for each user of the item, and `digits` has 20, the digits of the greatest size.
--
-- Parameters. The conversion of character sets, `g_utf8_validate` and `g_strsplit`, `pread`, `pwrite`
-- (its success), the tree hash of a block (in DlFile) and the hashes of the blocks in the database are
-- arguments. What is assumed of GLib is in `GlibLaws`. In FlUtil and StrUtil, regular expressions,
-- `strtoull`, the characters of a string, `g_unichar_tolower`, `strcmp` (`IsStrcmp`) and
-- `g_build_filename` (`IsBuild`) are arguments. In DlQueue, the functions of `GSequence` (`IsInsert`,
-- `IsSort`) and `strcmp` are. The limits of RateCalc are an argument, too.
--
-- Not modelled: the network layer, the database, the user interface, the share, the hubs and the
-- connections; of dlfile.c, the format of the incomplete file and its final move; of dl.c, which of several
-- users `dl_queue_start_do` chooses, the import from the database and the TTHL data; of fl_util.c, the
-- memory of the items, copies and suggestions; and every mutex: a call is one step here. A directory
-- counts as sorted in FlUtil when the search by any name works in it.
pub mod Prelude
pub mod Proto
pub mod Bitmap
pub mod DlFile
pub mod Tiger
pub mod Tth
pub mod Bloom
pub mod FlUtil
pub mod PtrArray
pub mod Base32
pub mod StrUtil
pub mod RateCalc
pub mod DlQueue
