-- ===== src/Buyer/Server.antt =====
-- `createBuyerControllerServer`: the calls, one handler each, and the dispatch.
pub mod Reply
pub mod Ended
pub mod Reads
pub mod Writes
pub mod Remote
pub mod Handle
pub mod Laws
pub mod History
