-- ===== src/Lib.antt =====
-- A model of minhq, HTTP over QUIC with QPACK header compression, in Go.
--
-- The program's parts and how they interact. `io` writes and reads bits over io.Writer and
-- io.Reader; `hc` codes header fields on top of it, with HPACK integers, a static and a dynamic
-- table, and QPACK's encoder and decoder; the main package frames messages on QUIC streams with the
-- same readers and writers, passes header blocks to `hc`, and hands out push IDs.
--
-- Base.antt and its children: shared names, uint8 and uint64 (Base/Words), strings of bits
-- (Base/Bits), Go strings as bytes (Base/Names), int (Base/Int), errors (Base/Results).
--
-- Io/BitWriter.antt models `bitWriter` of io/bitio.go: the transport is the record Sink, whose list
-- of answers says what happens to each next byte, so every failure of the io.Writer is covered;
-- `write_bits`, `write_bit`, `write_byte`, `write` and `pad` are WriteBits, WriteBit, WriteByte,
-- Write and Pad. Io/BitWriter/View defines the string of bits that a writer has been given, Writes
-- what a call does to it, Wrote, Slices and Padding the form for transports that accept, and Octets that octets go out.
-- Io/BitReader.antt models `bitReader`: the input is a list of bytes with the error behind it;
-- Fetch and Reads say what a call takes off the string of bits, Gives is the form for clients, and Progress says
-- that nothing is given back. Io/Travels joins a write and a read.
--
-- Hc/Integers.antt models ReadInt, ReadIndex and WriteInt of hc/io.go, Hc/StaticTable.antt the
-- tables of hc/statictable.go, Hc/Table.antt `tableCommon` of hc/table.go (Numbering for indices,
-- Evicting and Inserting for insertion, Lookups for searches), Hc/QpackTable.antt the encoder's
-- table of hc/qpacktable.go, Hc/UsageTracker.antt the header blocks that refer to its entries,
-- Hc/Strings.antt the strings of hc/io.go, Hc/HpackTable.antt the table of hc/hpack.go,
-- Hc/HpackDecoder.antt and Hc/HpackEncoder.antt its two ends (ReadBack, Rounds and Blocks for what is
-- read in front of known bits, Progress for any input; Crossing, Fields, FieldLists, Capacities and
-- Blocks for what is written and how it is read),
-- Hc/IndexPreferences.antt the index preferences of hc/codec.go, Hc/Huffman.antt and
-- Hc/HuffmanTable.antt the Huffman code, Hc/LargestReference.antt the number at the head of a
-- header block of hc/qpackencoder.go and hc/qpackdecoder.go, and Hc/Headers.antt the header fields
-- of hc/codec.go.
--
-- Hc/QpackEncoder.antt models the state of the QPACK encoder of hc/qpackencoder.go (Accounting and
-- Inserting for the entries that are not acknowledged, Obeying and Limit for what an instruction of the
-- decoder does, Instructions for the stream of acknowledgments, Overshooting for both ends of it),
-- Hc/QpackFeedback.antt the goroutine of hc/qpackdecoder.go that writes that stream,
-- Hc/QpackWriter.antt and its Blocks how header blocks are written (Blocking,
-- Slots, Holding and the children of Blocks for what they refer to and the streams that they block,
-- Calls for sequences of calls on an encoder),
-- Hc/QpackDecoder.antt how the decoder reads updates of its table, and Hc/QpackDecoder/HeaderBlocks.antt
-- how it reads header blocks. The use counts that entries and header blocks share are a store.
--
-- Frame.antt models frame.go, ServerPush.antt the push IDs of server_connection.go (Issuing: any
-- sequence of calls; Race: goroutines under the read lock), and Message.antt `handleMessage` of
-- message.go, where the header decoder and the handlers are parameters. Examples.antt and its
-- children hold concrete inputs.
--
-- Go's (value, error) is a Result, or an error beside the value where the code returns both. A
-- writer's or a reader's state is passed along explicitly. A panic is `none` or Error.panicked.
-- `strings.ToLower` is a parameter. uint8 and uint64 wrap; an int that counts inserts or bytes is
-- taken for unbounded.
--
-- Bounds and fuel. The loop of writeSaved runs on the number of whole octets held, the loop of
-- ReadBits on count / 8, since each round adds an octet. ReadInt's loop has ten rounds, since its
-- shift goes from 0 to 63 in steps of 7, and WriteInt's has ten, since a uint64 has at most ten
-- groups of seven bits. The tree of the Huffman code is built to a depth of 32, and no code has
-- more than 30 bits. The loops of ReadHeaderBlock and ReadTableUpdates run on the number of bits of
-- their input and one more.
--
-- Not modelled: settings, the
-- dispatch of streams and frames on a connection, requests, the wrapper of the QUIC library (mw),
-- logging, and the tools (hq, hc/qif). `Read` of `bitReader` is left out: its users here read an
-- octet at a time.
pub mod Base
pub mod Io
pub mod Hc
pub mod Frame
pub mod ServerPush
pub mod Message
pub mod Examples
