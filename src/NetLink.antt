-- ===== src/NetLink.antt =====
-- shared/netlink_client/NetLinkClient.{h,cpp}, in the modules below.
pub mod Socket
pub mod Text
pub mod Send
pub mod Wire
