-- ===== src/Lib.antt =====
-- nanoserve: an LLM inference engine. This library models the memory management and the
-- scheduling of the engine (engine/*.py), with the parts around it that the engine relies on,
-- and proves what makes them correct.
--
-- Exec is the monad of methods that mutate an object and may raise: the state comes back beside
-- the error. Prelude passes on the library's names.
--
-- Allocator models `BlockAllocator` of engine/block_manager.py: `init`, `allocate`,
-- `allocate_many`, `incref`, `decref` and the counters. The head of `Allocator.free` is the end
-- of the Python list. `Allocator.Invariant.Holds a held` says that the counts of `a` are those
-- of the references in `held`, a list that stands for what all clients together hold.
--
-- Paged models `PagedKVCache` and `PagedCachePool` of engine/block_manager.py. A record `Paged`
-- is one cache with the pool that it shares. A row of a tensor (one token's keys or values at
-- one layer) is a value of a parameter type, and a tensor of the pool a function of the layer
-- and the slot; the device and the dtype are not modelled. `append_block`, `ensure_capacity`
-- (`grow` is its loop), `unshare_tail`, `update` (`begin_pass` is its part for layer 0,
-- `write_pass` its scatter and gather), `fork`, `free`, `copy_block`, `start_sequence` (the
-- pool's `allocate`), `can_fit` and `reset` are the methods of those names. Paged.Forward runs
-- `update` once for each layer, as the loop of model/transformer.py does.
--
-- Prefix models `PrefixCache` of engine/prefix_cache.py; a Python dictionary is the list of its
-- items (Dict). A record `Prefix` is the cache with the pool that it shares. `block_hash`
-- stands on Python's `hash` and is a parameter; a key is a natural number, where Python's may
-- be negative, which matters only for the order of two entries with one tick and one depth, and
-- no two entries have one tick. The loop of `ensure_free` runs on fuel, one more than the
-- number of entries: each round but the last evicts one. `Prefix.Invariant.Valid others` is
-- what holds of the cache between two calls, with `others` the references of the running
-- sequences. `block_hit_rate`, `to_dict` and `__repr__` are not modelled.
--
-- Batch models `BatchedPagedCache` and `cache_mask` of engine/scheduler.py: `total_need` is the
-- first loop of `_prepare`, `commit_loop` the second, `index_rows` and `mask_rows` the padded
-- slot lists and the mask, `exchange` the scatter and the gather of `update`, and `run_pass`
-- the call of the model in `step`, which makes the mask and then runs `update` in each layer.
-- Batch.Need is about the count, Batch.Step about one sequence, Batch.Prepare about `_prepare`,
-- Batch.Layer and Batch.Pass about what attention reads. The batch's rows are one for each
-- sequence; the pinned staging buffer and the copies between host and device are not modelled.
--
-- Request models the requests of engine/types.py, and Engine the queues of
-- `ContinuousBatchingEngine` in engine/scheduler.py: `enqueue` is `add_request` without
-- admission control (Admission has the whole), and `request_cancel`, `apply_cancellations`
-- (`cancel_running` and `cancel_waiting` are its loops), `cancel`, `_record_finished`, the
-- drains, `has_work`, `_accept_token`, `_preempt_newest` and `_retire` have functions of those
-- names. What the clock reads is an argument `now`. A request is a value: it stands in one list
-- at a time, so no update through another reference is lost. `Engine.Invariant.Served` says
-- that the blocks of the pool are held by the running sequences and the prefix cache. `run` is
-- not modelled.
--
-- Admit models `_admit` of engine/scheduler.py: `admit_loop` is its loop, over what is left of
-- the queue, `make_room` the test of the free blocks, `reject_or_take` the two ways on, `begin`
-- the call of `_prefill` in `try`, and `welcome` what follows it.
--
-- Prefill models `_prefill` of engine/scheduler.py: `match`, `attach`, the suffix through the
-- model, `insert`. Prefill.Reuse is about the blocks that are found, Prefill.Run about the
-- whole.
--
-- Scheduler models `step` of engine/scheduler.py from the call of the model on: `run_batch` is
-- the call, over Batch and Model, `after_pass` what follows it or the `OutOfBlocks` that it
-- raises, and `finish_loop` the loop that feeds the tokens and retires what is done. An engine
-- without an admission controller is modelled, so `record_step` is not called in it. Picking a
-- token from logits is a parameter, and one step reads the clock once.
--
-- Tokenizer models the encoding of one piece and the decoding of tokens to bytes in
-- `BPETokenizer` of model/tokenizer.py. `merges` is a list of rules in rank order. The loop of
-- `_encode_piece` runs on fuel, one more than the length of the piece: each merge makes the
-- list shorter. The memo, the split of a text into pieces, special tokens and `train` are not
-- modelled.
--
-- Static models the contiguous cache of engine/kv_cache.py: `allocate`, `release` (the pool's
-- `free`), `reset`, `update` and `stats` are the methods of those names. A cache is an object,
-- known by its index, so that a handle that outlived its slot can be used. Static.Calls runs
-- any sequence of calls, Static.Account is about `stats`.
--
-- Model models the forward pass of model/transformer.py around its caches. What the layers
-- compute for one token (linear maps, rotary embedding, softmax, norms) is a parameter, the
-- record `Network`; the positions, the masks, the order of the layers and the calls of the
-- caches are modelled. `forward_plain` is `NanoForCausalLM.forward` without a cache and
-- `forward_cached` with a `DynamicCache`; `paged_layers`, `static_layers` and `batch_layers`
-- are the loop of `NanoModel.forward` over the other caches, and `decode_pass` the call of the
-- model in `step` of engine/scheduler.py. Attention is over all heads at once, and a batch of
-- plain passes is one sequence. `Paging.view` and `Slotted.slot_view` read a cache as a
-- `DynamicCache`: the tables, the blocks and the slots are forgotten.
--
-- Generate models the loop of `generate_stream` in model/generate.py under greedy decoding; the
-- argmax, the vocabulary and Python's reading of bytes as UTF-8 are parameters. `recompute` is
-- the same decoding without a cache.
--
-- Admission models engine/admission.py: `record_step`, `tokens_per_second`, `project_finish`
-- and `admit` are the methods of those names, and `add_request` is the one of
-- engine/scheduler.py. A float is the exact fraction that it stands for, and a comparison is
-- multiplied out.
--
-- Discovery models `_range_end` of engine/discovery.py on bytes, and Baseline `BaselineEngine`
-- of engine/baseline.py without a pool: `serve` is what `step` makes of one request,
-- `generate_cached` and `generate_plain` the two forms of `_generate`, and `drain` the loop of
-- `run`, as many rounds as it is given times; a prompt is not empty.
--
-- The model's arithmetic, sampling, the servers, registration and leases, training and the
-- benchmarks are not modelled.
pub mod Prelude
pub mod Exec
pub mod Dict
pub mod Allocator
pub mod Paged
pub mod Prefix
pub mod Batch
pub mod Request
pub mod Engine
pub mod Tokenizer
pub mod Static
pub mod Model
pub mod Generate
pub mod Admission
pub mod Scheduler
pub mod Prefill
pub mod Discovery
pub mod Baseline
pub mod Admit
